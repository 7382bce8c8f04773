-- ===== src/Stage/Agg.antt =====
-- The aggregation tasks of a stage at work: `gen_agg_tasks` by feature, `get_agg_task` and
-- `on_agg_task`.
use zkm_prover.Base.{
  ℕ, Bool, true, false, ◌&&◌, ◌||◌, Option, none, some, List, [], ◌∷◌, ◌==◌, str_eq, if◌then◌else◌,
  any, find,
}
use zkm_prover.Platform.{Result, ok, unwrap, ◌>>=◌, Env, World, write, unwrap_none}
use zkm_prover.Tasks.{
  Step, ProveTask, AggTask, AggregateInput, task_state_processing, task_state_success,
}
use zkm_prover.Tasks.Progress.{Progress, is_open, on_task}
use zkm_prover.Stage.{Stage, Backend}
use zkm_prover.Stage.Prove.{clear_children}
use zkm_prover.Stage.Aggregate
use zkm_prover.Stage.Pairwise

abbrev pub gen_agg_tasks : Backend → Env → World → Stage → Result (Stage × World)
gen_agg_tasks Backend.prover = Pairwise.gen_agg_tasks
gen_agg_tasks Backend.prover_v2 = Aggregate.gen_agg_tasks

abbrev pub is_some {ℓ} : {A : Type ℓ} → Option A → Bool
is_some none = false
is_some (some _) = true

-- A child that is not done yet.
abbrev pub waits : AggTask → Bool
waits t = any is_some t.childs

-- The first open task that waits for nobody is handed out.
unfoldable pub take_agg : World → List AggTask → List AggTask × Option AggTask
take_agg w [] = ([], none)
take_agg w (t ∷ ts) =
    let (rest, found) = take_agg w ts in
    let taken = record t {
      state = task_state_processing;
      trace = record t.trace { start_ts = w.now };
    } in
    if waits t
    then (t ∷ rest, found)
    else (if is_open t.state then (taken ∷ ts, some taken) else (t ∷ rest, found))

-- The output of the task that an input names; a task that is not there panics.
unfoldable pub fill_input : List AggTask → List ProveTask → AggregateInput → Result AggregateInput
fill_input aggs proves input =
    if input.is_agg
    then (do
      t ← unwrap (find (λ x. str_eq x.task_id input.computed_request_id) aggs) unwrap_none
      ok (record input { receipt_input = t.output }))
    else (do
      t ← unwrap (find (λ x. str_eq x.task_id input.computed_request_id) proves) unwrap_none
      ok (record input { receipt_input = t.output }))

unfoldable pub fill_inputs :
    List AggTask → List ProveTask → List AggregateInput → Result (List AggregateInput)
unfolding fill_input
fill_inputs aggs proves [] = ok []
fill_inputs aggs proves (input ∷ inputs) = do
  filled ← fill_input aggs proves input
  rest ← fill_inputs aggs proves inputs
  ok (filled ∷ rest)

-- The copy that is handed out has its inputs filled in; the stored task keeps its own.
unfoldable pub fill_found : Stage → Option AggTask → Result (Stage × Option AggTask)
unfolding fill_inputs
fill_found s none = ok (s, none)
fill_found s (some t) = do
  inputs ← fill_inputs s.agg_tasks s.prove_tasks t.inputs
  ok (s, some (record t { inputs = inputs }))

unfoldable pub get_agg_task : World → Stage → Result (Stage × Option AggTask)
unfolding take_agg fill_found
get_agg_task w s =
    let (tasks, found) = take_agg w s.agg_tasks in fill_found (record s { agg_tasks = tasks }) found

abbrev progress : AggTask → Progress
progress t = record { state = t.state; trace = t.trace; output = t.output }

abbrev with_progress : AggTask → Progress → AggTask
with_progress t p = record t { state = p.state; trace = p.trace; output = p.output }

-- A reply meets the first task of its id that is being processed.
unfoldable pub answer_agg : ℕ → AggTask → List AggTask → AggTask × List AggTask × Bool
unfolding on_task
answer_agg now src [] = (src, [], false)
answer_agg now src (t ∷ ts) =
    let handled = on_task now (progress src) (progress t) in
    let (src', rest, fails) = answer_agg now src ts in
    if str_eq t.task_id src.task_id && t.state == task_state_processing
    then (with_progress src handled.src, with_progress t handled.dst ∷ ts, handled.fails)
    else (src', t ∷ rest, fails)

abbrev pub is_agg_step : Step → Bool
is_agg_step Step.agg = true
is_agg_step _ = false

-- The final task's output is the proof, if aggregation is what was asked for.
unfoldable pub write_agg_proof : World → Stage → AggTask → Result World
unfolding write
write_agg_proof w s src =
    if src.is_final && is_agg_step s.generate_task.target_step
    then write w s.generate_task.snark_path src.output
    else ok w

unfoldable pub on_agg_reply : World → AggTask → Stage → Result (Stage × AggTask × World)
on_agg_reply w src s =
    let (src', tasks, fails) = answer_agg w.now src s.agg_tasks in
    let s' = record s { agg_tasks = tasks; is_error = fails || s.is_error } in
    let cleared = record s' { agg_tasks = clear_children src'.task_id tasks } in
    if src'.state == task_state_success
    then (do w' ← write_agg_proof w s' src'; ok (cleared, src', w'))
    else ok (s', src', w)
