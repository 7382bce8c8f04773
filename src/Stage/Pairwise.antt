-- ===== src/Stage/Pairwise.antt =====
-- `gen_agg_tasks` under the feature prover: segments are paired, and pairs of tasks after them; an
-- odd one out goes on to the next round.
pub mod Count
pub mod Root
pub mod Conserve
use zkm_prover.Base.{
  ℕ, zero, suc, ◌+◌, true, ltb, List, [], ◌∷◌, ◌++◌, if◌then◌else◌, length, update_last,
}
use zkm_prover.Platform.{Result, ok, panic, ◌>>=◌, Env, World, draw, subtract_overflow}
use zkm_prover.Tasks.{ProveTask, AggTask}
use zkm_prover.Tasks.Agg.{
  init_from_single_prove_task, init_from_two_prove_task, init_from_two_agg_task,
}
use zkm_prover.Stage.{Stage}

-- The tasks pushed to the stage, the layer that the next round works on, the world, and the last
-- index given.
pub record Round : Type 0 where
  pub pushed : List AggTask
  pub layer : List AggTask
  pub world : World
  pub index : ℕ

-- The odd one out is given the next index, and the counter stays.
pub pair_proves : Env → World → ℕ → List ProveTask → Round
pair_proves env w index [] = record { pushed = []; layer = []; world = w; index = index }
pair_proves env w index (t ∷ []) =
    let alone = init_from_single_prove_task t (suc index) in
    record { pushed = alone ∷ []; layer = alone ∷ []; world = w; index = index }
pair_proves env w index (left ∷ right ∷ ts) =
    let pair = init_from_two_prove_task (env.uuid w.drawn) left right (suc index) in
    let rest = pair_proves env (draw w) (suc index) ts in
    record rest { pushed = pair ∷ rest.pushed; layer = pair ∷ rest.layer }

-- The odd one out is not a new task.
pub pair_aggs : Env → World → ℕ → List AggTask → Round
pair_aggs env w index [] = record { pushed = []; layer = []; world = w; index = index }
pair_aggs env w index (t ∷ []) = record { pushed = []; layer = t ∷ []; world = w; index = index }
pair_aggs env w index (left ∷ right ∷ ts) =
    let pair = init_from_two_agg_task (env.uuid w.drawn) left right (suc index) in
    let rest = pair_aggs env (draw w) (suc index) ts in
    record rest { pushed = pair ∷ rest.pushed; layer = pair ∷ rest.layer }

-- The `while` loop.
pub rounds : ℕ → Env → World → ℕ → List AggTask → Round
unfolding pair_aggs
rounds zero env w index layer = record { pushed = []; layer = layer; world = w; index = index }
rounds (suc fuel) env w index layer =
    let made = pair_aggs env w index layer in
    let rest = rounds fuel env made.world made.index made.layer in
    if ltb 1 (length layer)
    then record rest { pushed = made.pushed ++ rest.pushed }
    else record { pushed = []; layer = layer; world = w; index = index }

-- `last_mut` of the source is an index: it is in range, as a task was pushed.
abbrev pub mark_final : List AggTask → List AggTask
mark_final = update_last λ t. record t { is_final = true }

-- The fuel is the width of the first layer, which every round makes smaller.
pub pairing : Env → World → List ProveTask → Round
unfolding pair_proves rounds
pairing env w proves =
    let base = pair_proves env w 0 proves in
    let rest = rounds (length base.layer) env base.world base.index base.layer in
    record rest { pushed = base.pushed ++ rest.pushed }

-- `current_length - 1` panics on no task at all.
unfoldable pub pair_up : Env → World → Stage → List ProveTask → Result (Stage × World)
unfolding pairing
pair_up env w s [] = panic subtract_overflow
pair_up env w s (t ∷ ts) =
    let made = pairing env w (t ∷ ts) in
    ok (record s { agg_tasks = mark_final (s.agg_tasks ++ made.pushed) }, made.world)

unfoldable pub gen_agg_tasks : Env → World → Stage → Result (Stage × World)
unfolding pair_up
gen_agg_tasks env w s = pair_up env w s s.prove_tasks
