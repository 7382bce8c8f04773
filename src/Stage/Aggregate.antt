-- ===== src/Stage/Aggregate.antt =====
-- `gen_agg_tasks` under the feature prover_v2: a tree of aggregation tasks over the prove tasks,
-- `first_layer_batch_size` wide at the leaves and two wide above.
pub mod Tree
pub mod Shape
pub mod Root
use zkm_prover.Base.{
  ℕ, zero, suc, Bool, true, false, not, ◌&&◌, ◌==◌, ltb, List, [], ◌∷◌, ◌++◌, if◌then◌else◌, length,
  is_empty, keep, update_last,
}
use zkm_prover.Platform.{
  Bytes, Result, ok, unwrap, ◌>>=◌, Env, World, draw, read, join, expect_failed,
}
use zkm_prover.Tasks.{ProveTask, AggTask}
use zkm_prover.Tasks.Agg.{init_from_prove_tasks, init_from_agg_tasks}
use zkm_prover.Stage.{Stage}
use zkm_prover.Stage.Chunks.{chunks}

-- `prover_v2::FIRST_LAYER_BATCH_SIZE`
abbrev pub first_layer_batch_size : ℕ
first_layer_batch_size = 1

abbrev pub batch_size : ℕ
batch_size = 2

-- Tasks made, with the world and the index for the next one.
pub record Made : Type 0 where
  pub tasks : List AggTask
  pub world : World
  pub next_index : ℕ

-- The leaves over a list of batches; `is_first` says that the first batch has index 0.
unfoldable pub leaves :
    Env → Bytes → Bool → Bool → Bool → World → ℕ → List (ProveTask × List ProveTask) → Made
leaves env vk is_complete is_deferred is_first w index [] = record {
  tasks = [];
  world = w;
  next_index = index;
}
leaves env vk is_complete is_deferred is_first w index (batch ∷ batches) =
    let made = leaves env vk is_complete is_deferred false (draw w) (suc index) batches in
    record made {
      tasks =
          init_from_prove_tasks (env.uuid w.drawn) vk batch index is_complete is_first is_deferred
          ∷ made.tasks;
    }

-- Each deferred task is a batch of its own.
abbrev pub singly : List ProveTask → List (ProveTask × List ProveTask)
singly [] = []
singly (t ∷ ts) = (t, []) ∷ singly ts

abbrev pub normal : List ProveTask → List ProveTask
normal = keep λ t. not t.is_deferred

abbrev pub deferred : List ProveTask → List ProveTask
deferred = keep λ t. t.is_deferred

unfoldable pub first_layer : Env → Bytes → World → List ProveTask → Made
unfolding leaves
first_layer env vk w proves =
    let is_complete = length (normal proves) == 1 && is_empty (deferred proves) in
    let front =
      leaves env vk is_complete false true w 0 (chunks first_layer_batch_size (normal proves)) in
    let back =
      leaves env vk is_complete true false front.world front.next_index
        (singly (deferred proves)) in
    record back { tasks = front.tasks ++ back.tasks }

unfoldable pub next_layer : Env → World → ℕ → List (AggTask × List AggTask) → Made
next_layer env w index [] = record { tasks = []; world = w; next_index = index }
next_layer env w index (batch ∷ batches) =
    let made = next_layer env (draw w) (suc index) batches in
    record made { tasks = init_from_agg_tasks (env.uuid w.drawn) batch index false ∷ made.tasks }

-- The `while` loop: layers are built until one has a single task.
unfoldable pub layers_above : ℕ → Env → World → ℕ → List AggTask → Made
unfolding next_layer
layers_above zero env w index layer = record { tasks = []; world = w; next_index = index }
layers_above (suc fuel) env w index layer =
    let made = next_layer env w index (chunks batch_size layer) in
    let above = layers_above fuel env made.world made.next_index made.tasks in
    if ltb 1 (length layer)
    then record above { tasks = made.tasks ++ above.tasks }
    else record { tasks = []; world = w; next_index = index }

-- The fuel is the width of the first layer, which every round makes smaller.
unfoldable pub tree : Env → Bytes → World → List ProveTask → Made
unfolding first_layer layers_above
tree env vk w proves =
    let base = first_layer env vk w proves in
    let above = layers_above (length base.tasks) env base.world base.next_index base.tasks in
    record above { tasks = base.tasks ++ above.tasks }

abbrev pub mark_final : List AggTask → List AggTask
mark_final = update_last λ t. record t { is_final = true }

unfoldable pub gen_agg_tasks : Env → World → Stage → Result (Stage × World)
unfolding tree read
gen_agg_tasks env w s = do
  vk ← unwrap (read w (join s.generate_task.base_dir "vk.bin")) expect_failed
  let made = tree env vk w s.prove_tasks
  ok (record s { agg_tasks = mark_final (s.agg_tasks ++ made.tasks) }, made.world)
