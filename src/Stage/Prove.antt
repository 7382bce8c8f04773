-- ===== src/Stage/Prove.antt =====
-- The prove tasks of a stage at work: `get_prove_task`, `on_prove_task`, `clear_agg_child_task` and
-- the two counts.
pub mod Laws
pub mod Replies
use zkm_prover.Base.{
  ℕ, String, Bool, true, false, not, ◌&&◌, ◌||◌, Option, none, some, List, [], ◌∷◌, ◌==◌, str_eq,
  if◌then◌else◌, count_if,
}
use zkm_prover.Platform.{World}
use zkm_prover.Tasks.{ProveTask, AggTask, task_state_processing, task_state_success}
use zkm_prover.Tasks.Progress.{is_open, on_prove_task}
use zkm_prover.Tasks.Agg.{clear_child_task}
use zkm_prover.Stage.{Stage}

abbrev pub exists : World → String → Bool
exists w path = elim (w.files path) [ some _ ↦ true | none ↦ false ]

-- The first open task whose segment file is there is handed out.
unfoldable pub take_prove : World → List ProveTask → List ProveTask × Option ProveTask
take_prove w [] = ([], none)
take_prove w (t ∷ ts) =
    let (rest, found) = take_prove w ts in
    let taken = record t {
      state = task_state_processing;
      trace = record t.trace { start_ts = w.now };
    } in
    if is_open t.state && exists w t.segment then (taken ∷ ts, some taken) else (t ∷ rest, found)

unfoldable pub get_prove_task : World → Stage → Stage × Option ProveTask
get_prove_task w s =
    let (tasks, found) = take_prove w s.prove_tasks in (record s { prove_tasks = tasks }, found)

-- A reply meets the first task of its id that is being processed.
unfoldable pub answer_prove : ℕ → ProveTask → List ProveTask → ProveTask × List ProveTask × Bool
answer_prove now src [] = (src, [], false)
answer_prove now src (t ∷ ts) =
    let handled = on_prove_task now src t in
    let (src', rest, fails) = answer_prove now src ts in
    if str_eq t.task_id src.task_id && t.state == task_state_processing
    then (handled.src, handled.dst ∷ ts, handled.fails)
    else (src', t ∷ rest, fails)

-- The first aggregation task that waits for `id` is told.
unfoldable pub clear_children : String → List AggTask → List AggTask
clear_children id [] = []
clear_children id (t ∷ ts) =
    let (t', found) = clear_child_task id t in
    let rest = clear_children id ts in if found then t' ∷ ts else t' ∷ rest

unfoldable pub clear_agg_child_task : String → Stage → Stage
clear_agg_child_task id s = record s { agg_tasks = clear_children id s.agg_tasks }

unfoldable pub on_prove_reply : World → ProveTask → Stage → Stage × ProveTask
on_prove_reply w src s =
    let (src', tasks, fails) = answer_prove w.now src s.prove_tasks in
    let s' = record s { prove_tasks = tasks; is_error = fails || s.is_error } in
    (if src'.state == task_state_success then clear_agg_child_task src'.task_id s' else s', src')

unfoldable pub count_unfinished_prove_tasks : Stage → ℕ
count_unfinished_prove_tasks s = count_if (λ t. not (t.state == task_state_success)) s.prove_tasks

unfoldable pub count_processing_prove_tasks : Stage → ℕ
count_processing_prove_tasks s = count_if (λ t. t.state == task_state_processing) s.prove_tasks
