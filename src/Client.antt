-- ===== src/Client.antt =====
-- proof-service/src/prover_client.rs: calls of the prover nodes. A call is written as its two
-- halves, before and after the wait for the node, since other calls run in between; the node's
-- answer is a parameter.
pub mod Requests
pub mod Calls
pub mod Laws
pub mod Limit
pub mod Single
use zkm_prover.Base.{
  ℕ, zero, suc, ◌-◌, String, Bool, true, false, Option, none, some, List, leb, if◌then◌else◌,
  get_elem?,
}
use zkm_prover.Tasks.{
  task_state_unprocessed, task_state_processing, task_state_success, task_state_failed,
}
use zkm_prover.Nodes.{ProverNode, NodeStatus, idle, off_line, get_idle_client, set_status}

-- `ResultCode` of prover.proto, as `from_i32` reads it.
pub data ResultCode : Type 0 where
  ok invalid_parameter internal_error busy unspecified : ResultCode

-- A code that is none of these, a negative one too, is a number above 4 here.
unfoldable pub result_code : ℕ → Option ResultCode
result_code zero = some ResultCode.ok
result_code (suc zero) = some ResultCode.invalid_parameter
result_code (suc (suc zero)) = some ResultCode.internal_error
result_code (suc (suc (suc zero))) = some ResultCode.busy
result_code (suc (suc (suc (suc zero)))) = some ResultCode.unspecified
result_code _ = none

state_of_code : Option ResultCode → ℕ
state_of_code (some ResultCode.unspecified) = task_state_processing
state_of_code (some ResultCode.ok) = task_state_success
state_of_code (some ResultCode.internal_error) = task_state_failed
state_of_code (some ResultCode.busy) = task_state_unprocessed
state_of_code _ = task_state_failed

unfoldable pub result_code_to_state : ℕ → ℕ
unfolding result_code state_of_code
result_code_to_state code = state_of_code (result_code code)

-- What one proof's calls share: the nodes, and how many of them it uses.
pub record Pool : Type 0 where
  pub nodes : List ProverNode
  pub cur_prover_num : ℕ

-- What the calls find outside: the clock, who answers a connection, the shuffled indices of
-- `get_nodes`, and what other calls do to the pool while a node is being connected.
pub record Outside : Type 0 where
  pub now : ℕ
  pub reachable : String → Bool
  pub order : List ℕ
  pub meanwhile : Pool → Pool

-- How the first half of a call ends: at the limit, with no node, or with a node that is busy now.
pub data Entry : Type 0 where
  at_limit no_node : Entry
  on_node : ℕ → Entry

-- The second test of the limit, once a node is held.
unfoldable pub enter_on : ℕ → Pool → ℕ → Pool × Entry
enter_on max_prover_num p i =
    if leb max_prover_num p.cur_prover_num
    then (record p { nodes = set_status i idle p.nodes }, at_limit)
    else (record p { cur_prover_num = suc p.cur_prover_num }, on_node i)

enter_found : ℕ → Pool → Option ℕ → Pool × Entry
unfolding enter_on
enter_found max_prover_num p none = (p, no_node)
enter_found max_prover_num p (some i) = enter_on max_prover_num p i

unfoldable pub enter : Outside → ℕ → Pool → Pool × Entry
unfolding enter_found
enter out max_prover_num p =
    let (nodes, found) = get_idle_client out.now out.reachable out.order p.nodes in
    if leb max_prover_num p.cur_prover_num
    then (p, at_limit)
    else enter_found max_prover_num (out.meanwhile (record p { nodes = nodes })) found

-- After the wait: the count goes down, and the node is idle, or off line if it did not answer.
unfoldable pub leave : ℕ → Bool → ℕ → Pool → Pool
leave now answered i p = record {
  nodes = set_status i (if answered then idle else off_line now) p.nodes;
  cur_prover_num = p.cur_prover_num - 1;
}

abbrev pub addr_at : List ProverNode → ℕ → String
addr_at nodes i = elim (get_elem? nodes i) [ some node ↦ node.addr | none ↦ "" ]
