-- ===== src/Tasks/Agg.antt =====
-- proof-service/src/stage/tasks/agg_task.rs. A slice that the source indexes at 0 is a head and a
-- tail here: `chunks` gives no empty slice.
pub mod Clear
use zkm_prover.Base.{
  ℕ, String, Bool, true, false, not, Option, none, some, List, [], ◌∷◌, map, str_eq, ◌==◌,
  if◌then◌else◌,
}
use zkm_prover.Platform.{Bytes}
use zkm_prover.Tasks.{
  Trace, ProveTask, AggregateInput, AggTask, task_state_initial, task_state_unprocessed,
  task_state_success,
}

unfoldable pub from_prove_task : ProveTask → AggregateInput
from_prove_task t = record { receipt_input = []; computed_request_id = t.task_id; is_agg = false }

abbrev pub default_trace : Trace
default_trace = record { start_ts = 0; finish_ts = 0; node_info = "" }

-- `AggTask::default()`
abbrev pub default_agg : AggTask
default_agg = record {
  task_id = "";
  state = task_state_initial;
  proof_id = "";
  block_no = none;
  seg_size = 0;
  vk = [];
  inputs = [];
  is_final = false;
  is_first_shard = false;
  is_leaf_layer = false;
  from_prove = false;
  agg_index = 0;
  is_deferred = false;
  trace = default_trace;
  output = [];
  childs = [];
}

-- The loop of `clear_child_task`: the first child of that id is set to `None`.
clear_child : String → List (Option String) → List (Option String) × Bool
clear_child id [] = ([], false)
clear_child id (none ∷ childs) = let (rest, found) = clear_child id childs in (none ∷ rest, found)
clear_child id (some t ∷ childs) =
    let (rest, found) = clear_child id childs in
    if str_eq t id then (none ∷ childs, true) else (some t ∷ rest, found)

unfoldable pub clear_child_task : String → AggTask → AggTask × Bool
unfolding clear_child
clear_child_task id t =
    let (childs, found) = clear_child id t.childs in
    if t.state == task_state_unprocessed then (record t { childs = childs }, found) else (t, false)

unfoldable pub to_agg_input : AggTask → AggregateInput
to_agg_input t = record {
  receipt_input = [];
  computed_request_id = t.task_id;
  is_agg = not t.from_prove;
}

unfoldable pub init_from_prove_tasks :
    String → Bytes → ProveTask × List ProveTask → ℕ → Bool → Bool → Bool → AggTask
unfolding from_prove_task
init_from_prove_tasks id vk (first, more) agg_index is_final is_first_shard is_deferred =
    record default_agg {
      task_id = id;
      block_no = first.program.block_no;
      state = task_state_unprocessed;
      seg_size = first.program.seg_size;
      proof_id = first.program.proof_id;
      vk = vk;
      inputs = map from_prove_task (first ∷ more);
      is_final = is_final;
      is_first_shard = is_first_shard;
      is_leaf_layer = true;
      is_deferred = is_deferred;
      agg_index = agg_index;
      childs = if is_deferred then [] else map (λ t. some t.task_id) (first ∷ more);
    }

unfoldable pub init_from_agg_tasks : String → AggTask × List AggTask → ℕ → Bool → AggTask
unfolding to_agg_input
init_from_agg_tasks id (first, more) agg_index is_final = record default_agg {
  task_id = id;
  block_no = first.block_no;
  state = task_state_unprocessed;
  seg_size = first.seg_size;
  proof_id = first.proof_id;
  inputs = map to_agg_input (first ∷ more);
  is_final = is_final;
  is_leaf_layer = false;
  agg_index = agg_index;
  childs = map (λ t. some t.task_id) (first ∷ more);
}

-- The task of an odd segment out: nothing to aggregate, so it is born successful, under the id of
-- its prove task.
unfoldable pub init_from_single_prove_task : ProveTask → ℕ → AggTask
init_from_single_prove_task t agg_index = record default_agg {
  task_id = t.task_id;
  block_no = t.program.block_no;
  state = task_state_success;
  seg_size = t.program.seg_size;
  proof_id = t.program.proof_id;
  from_prove = true;
  agg_index = agg_index;
}

unfoldable pub init_from_two_prove_task : String → ProveTask → ProveTask → ℕ → AggTask
unfolding from_prove_task
init_from_two_prove_task id left right agg_index = record default_agg {
  task_id = id;
  block_no = left.program.block_no;
  state = task_state_unprocessed;
  seg_size = left.program.seg_size;
  proof_id = left.program.proof_id;
  inputs = from_prove_task left ∷ from_prove_task right ∷ [];
  agg_index = agg_index;
  childs = some left.task_id ∷ some right.task_id ∷ [];
}

unfoldable pub init_from_two_agg_task : String → AggTask → AggTask → ℕ → AggTask
unfolding to_agg_input
init_from_two_agg_task id left right agg_index = record default_agg {
  task_id = id;
  block_no = left.block_no;
  state = task_state_unprocessed;
  seg_size = left.seg_size;
  proof_id = left.proof_id;
  inputs = to_agg_input left ∷ to_agg_input right ∷ [];
  agg_index = agg_index;
  childs = some left.task_id ∷ some right.task_id ∷ [];
}
