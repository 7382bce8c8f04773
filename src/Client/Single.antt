-- ===== src/Client/Single.antt =====
-- `single_node` of proof-service/src/prover_client.rs: the whole proof as one call of one node. The
-- call looks for a node once a second; it is written as its halves around the wait for the answer.
use zkm_prover.Base.{ℕ, String, Bool, Option, none, some, List, [], ◌∷◌}
use zkm_prover.Platform.{Bytes}
use zkm_prover.Tasks.{Step, SingleNodeTask, task_state_unprocessed}
use zkm_prover.Nodes.{ProverNode, idle, off_line, get_idle_client, set_status}
use zkm_prover.Database.{Database, update_stage_task_check_at}
use zkm_prover.Client.{result_code_to_state, addr_at}
use zkm_prover.Client.Requests.{Response}

-- One look for a node: the clock, who answers, the shuffle, and what other calls do to the nodes
-- before the next look.
pub record Look : Type 0 where
  pub now : ℕ
  pub reachable : String → Bool
  pub order : List ℕ
  pub meanwhile : List ProverNode → List ProverNode

-- The loop up to a node; a list that ends before one is found is a call that still looks.
unfoldable pub seek : List Look → List ProverNode → List ProverNode × Option ℕ
seek [] nodes = (nodes, none)
seek (look ∷ others) nodes =
    let (nodes', found) = get_idle_client look.now look.reachable look.order nodes in
    elim found [ some i ↦ (nodes', some i) | none ↦ seek others (look.meanwhile nodes') ]

pub record SingleNodeRequest : Type 0 where
  pub proof_id : String
  pub computed_request_id : String
  pub base_dir : String
  pub elf_path : String
  pub private_input_path : String
  pub receipt_inputs_path : String
  pub program_id : String
  pub target_step : Step
  pub seg_size : ℕ

unfoldable pub single_node_request : SingleNodeTask → SingleNodeRequest
single_node_request t = record {
  proof_id = t.proof_id;
  computed_request_id = t.task_id;
  base_dir = t.base_dir;
  elf_path = t.elf_path;
  private_input_path = t.private_input_path;
  receipt_inputs_path = t.receipt_inputs_path;
  program_id = t.program_id;
  target_step = t.target_step;
  seg_size = t.seg_size;
}

-- The first half: still looking, ended by an error of the database, or waiting for a node.
pub data Begun : Type 0 where
  looks : Begun
  fails : Begun
  waits_for : ℕ → SingleNodeTask → SingleNodeRequest → Begun

-- The row is moved to the step `Prove`, so that a user sees it; the number of rows is not read.
unfoldable pub after_claim :
    ℕ → SingleNodeTask → Database → Option (Database × ℕ) → Database × Begun
after_claim i t db none = (db, fails)
after_claim i t db (some (db', rows)) = (db', waits_for i t (single_node_request t))

unfoldable pub claim_on : String → ℕ → ℕ → SingleNodeTask → Database → Option ℕ → Database × Begun
unfolding after_claim
claim_on proof_id old_check_at check_at t db none = (db, looks)
claim_on proof_id old_check_at check_at t db (some i) =
    after_claim i t db (update_stage_task_check_at db proof_id old_check_at check_at 2)

unfoldable pub begin_single_node :
    List Look
    → String
    → ℕ
    → ℕ
    → SingleNodeTask
    → Database
    → List ProverNode
    → List ProverNode × Database × Begun
unfolding claim_on
begin_single_node tries proof_id old_check_at check_at t db nodes =
    let (nodes', found) = seek tries nodes in
    let (db', begun) =
      claim_on proof_id old_check_at check_at (record t { state = task_state_unprocessed }) db
        found in
    (nodes', db', begun)

pub record SingleNodeOutput : Type 0 where
  pub total_steps : ℕ
  pub output : Bytes

single_node_coded : String → SingleNodeTask → SingleNodeOutput → Option ℕ → SingleNodeTask
single_node_coded addr t payload none = t
single_node_coded addr t payload (some code) = record t {
  state = result_code_to_state code;
  trace = record t.trace { node_info = addr };
  total_cycles = payload.total_steps;
  output = payload.output;
}

-- The second half: whatever the answer is, the loop is left with a task.
unfoldable pub end_single_node :
    ℕ
    → ℕ
    → SingleNodeTask
    → Option (Response SingleNodeOutput)
    → List ProverNode
    → List ProverNode × SingleNodeTask
unfolding single_node_coded
end_single_node now i t none nodes = (set_status i (off_line now) nodes, t)
end_single_node now i t (some r) nodes =
    (set_status i idle nodes, single_node_coded (addr_at nodes i) t r.payload r.code)
