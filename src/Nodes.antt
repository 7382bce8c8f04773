-- ===== src/Nodes.antt =====
-- proof-service/src/prover_node.rs and the choice of a node in proof-service/src/prover_client.rs
-- (`get_nodes`, `get_idle_client`). The nodes of the process are one list; a node is named by its
-- index in it. The shuffle of `rand` and the network are parameters.
pub mod Laws
use zkm_prover.Base.{
  ℕ, zero, suc, ◌+◌, String, Bool, true, false, ◌||◌, Option, none, some, List, [], ◌∷◌, ltb,
  if◌then◌else◌, take, get_elem?, set, indices_from,
}
use zkm_prover.Platform.{Result, ok, panic, index_out_of_bounds}

pub data NodeStatus : Type 0 where
  idle busy : NodeStatus
  off_line : ℕ → NodeStatus

pub record ProverNode : Type 0 where
  pub addr : String
  pub has_client : Bool
  pub status : NodeStatus

unfoldable pub new : String → ProverNode
new addr = record { addr = addr; has_client = false; status = idle }

pub data TaskType : Type 0 where
  split prove agg snark single_node : TaskType

-- The first node is the snark node; `PROVE_NODES_NUM` cuts the nodes for proving.
unfoldable pub get_nodes : TaskType → Option ℕ → List ProverNode → Result (List ℕ)
get_nodes TaskType.snark prove_nodes_num [] = panic index_out_of_bounds
get_nodes TaskType.snark prove_nodes_num (n ∷ nodes) = ok (0 ∷ [])
get_nodes TaskType.prove none nodes = ok (indices_from 0 nodes)
get_nodes TaskType.prove (some nodes_num) nodes = ok (take nodes_num (indices_from 0 nodes))
get_nodes _ prove_nodes_num nodes = ok (indices_from 0 nodes)

-- How long a node that went off line is left alone, in seconds.
abbrev pub quarantine : ℕ
quarantine = 180

-- Whether a node is passed over.
abbrev pub is_skipped : ℕ → NodeStatus → Bool
is_skipped now idle = false
is_skipped now busy = true
is_skipped now (off_line since) = ltb now (since + quarantine)

-- A node that comes back from quarantine has to be connected again.
abbrev keeps_client : NodeStatus → Bool → Bool
keeps_client (off_line since) has_client = false
keeps_client _ has_client = has_client

-- The node after the attempt: busy and connected, or off line.
pub data Attempt : Type 0 where
  connected unreachable : ProverNode → Attempt

unfoldable pub take_node : ℕ → (String → Bool) → ProverNode → Attempt
take_node now reachable node =
    if keeps_client node.status node.has_client || reachable node.addr
    then connected (record node { has_client = true; status = busy })
    else unreachable (record node { has_client = false; status = off_line now })

-- The loop of `get_idle_client`, over the indices in the order of the shuffle.
unfoldable pub get_idle_client :
    ℕ → (String → Bool) → List ℕ → List ProverNode → List ProverNode × Option ℕ
unfolding take_node
get_idle_client now reachable [] nodes = (nodes, none)
get_idle_client now reachable (i ∷ order) nodes = elim (get_elem? nodes i) [
  | none ↦ get_idle_client now reachable order nodes
  | some node ↦ elim (is_skipped now node.status) [
    | true ↦ get_idle_client now reachable order nodes
    | false ↦ elim (take_node now reachable node) [
      | connected taken ↦ (set nodes i taken, some i)
      | unreachable lost ↦ get_idle_client now reachable order (set nodes i lost)
    ]
  ]
]

-- `*node_status.lock() = status`
abbrev pub set_status : ℕ → NodeStatus → List ProverNode → List ProverNode
set_status i status [] = []
set_status zero status (n ∷ nodes) = record n { status = status } ∷ nodes
set_status (suc i) status (n ∷ nodes) = n ∷ set_status i status nodes
