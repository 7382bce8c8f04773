-- ===== src/Stage/Run/Aggs.antt =====
-- Aggregation tasks that go out and come back keep a run in order.
use zkm_prover.Base.{
  ◌≡◌, ap, ◌∙◌, sym, subst, String, true, ◌==◌, Option, none, some, List, ◌∷◌, ◌++◌, str_eq,
  if◌then◌else◌, arith,
}
use zkm_prover.Platform.{World, ok, >>=-eq-ok}
use zkm_prover.Tasks.{AggTask, task_state_success}
use zkm_prover.Stage.{Stage}
use zkm_prover.Stage.Prove.{clear_children}
use zkm_prover.Stage.Agg.{take_agg, answer_agg, get_agg_task, on_agg_reply, fill_found, fill_inputs}
use zkm_prover.Stage.Waiting.Hand.{get_agg_task-IsSafe}
use zkm_prover.Stage.Waiting.Answers.{IsSound}
use zkm_prover.Stage.Waiting.AggAnswers.{agg_answered, on_agg_reply-ok, on_agg_reply-IsSound}
use zkm_prover.Stage.Run.{Run}
use zkm_prover.Stage.Run.Owed.{
  proves_at, aggs_at, one_if, named_agg, take_agg-aggs_at, answer_agg-aggs_at,
  clear_children-aggs_at, owed_agg-met, owes-back,
}
use zkm_prover.Stage.Run.Proves.{IsRunning}

-- The task that `get_agg_task` gives is the one that the loop found, with its inputs filled in.
fill_found-named :
    (id : String) (s s' : Stage) (found : Option AggTask) (t : AggTask)
    → fill_found s found ≡ ok (s', some t)
    → (s' ≡ s) × (named_agg id found ≡ one_if (str_eq t.task_id id))
unfolding fill_found
fill_found-named id s s' none t e = cc
fill_found-named id s s' (some u) t e =
    let (inputs, filled, same) =
      >>=-eq-ok (fill_inputs s.agg_tasks s.prove_tasks u.inputs)
        (λ is. ok (s, some (record u { inputs = is }))) e in
    (ground (arith, same), ground (arith, same))

get_agg_task-named :
    (id : String) (w : World) (s s' : Stage) (t : AggTask)
    → get_agg_task w s ≡ ok (s', some t)
    → (s' ≡ record s { agg_tasks = (take_agg w s.agg_tasks).0 })
      × (named_agg id (take_agg w s.agg_tasks).1 ≡ one_if (str_eq t.task_id id))
unfolding get_agg_task
get_agg_task-named id w s s' t e =
    fill_found-named id (record s { agg_tasks = (take_agg w s.agg_tasks).0 }) s'
      (take_agg w s.agg_tasks).1 t e

pub agg_out-IsRunning :
    (w : World) (r : Run) (s : Stage) (t : AggTask)
    → get_agg_task w r.stage ≡ ok (s, some t)
    → IsRunning r
    → IsRunning (record r { stage = s; aggregating = t.task_id ∷ r.aggregating })
agg_out-IsRunning w r s t e h =
    let (s₀, found, f, safe, waiting, linked) = get_agg_task-IsSafe w r.stage h.sound.0 h.sound.1 in
    let same : s₀ ≡ s = ground (arith, e, f) in
    record {
      sound = subst IsSound same (waiting, linked);
      proving = λ id.
          let b = h.proving id in
          let (named, _) = get_agg_task-named id w r.stage s t e in
          let c : proves_at id s.prove_tasks ≡ proves_at id r.stage.prove_tasks =
            ap (λ (x : Stage). proves_at id x.prove_tasks) named in
          omega arith;
      aggregating = λ id.
          let a = take_agg-aggs_at w id r.stage.agg_tasks in
          let b = h.aggregating id in
          let (named, count) = get_agg_task-named id w r.stage s t e in
          let c : aggs_at id s.agg_tasks ≡ aggs_at id (take_agg w r.stage.agg_tasks).0 =
            ap (λ (x : Stage). aggs_at id x.agg_tasks) named in
          omega arith;
    }

on_agg_reply-same :
    (w w' : World) (src src' : AggTask) (s s' : Stage)
    → w.writable s.generate_task.snark_path ≡ true
    → on_agg_reply w src s ≡ ok (s', src', w')
    → s' ≡ agg_answered w src s
on_agg_reply-same w w' src src' s s' can_write e =
    let (src'', w'', f) = on_agg_reply-ok w src s can_write in ground (arith, e, f)

cleared_aggs_at :
    (src : AggTask) (id : String) (ts : List AggTask)
    → aggs_at id (if src.state == task_state_success then clear_children src.task_id ts else ts)
      ≡ aggs_at id ts
cleared_aggs_at src id ts = ground (arith, clear_children-aggs_at src.task_id id ts)

pub agg_back-IsRunning :
    (w w' : World) (src src' : AggTask) (s : Stage) (front back : List String) (r : Run)
    → r.aggregating ≡ front ++ src.task_id ∷ back
    → w.writable r.stage.generate_task.snark_path ≡ true
    → on_agg_reply w src r.stage ≡ ok (s, src', w')
    → IsRunning r
    → IsRunning (record r { stage = s; aggregating = front ++ back })
agg_back-IsRunning w w' src src' s front back r e can_write f h =
    let (owed, left) =
      owes-back src.task_id r.aggregating front back (λ id. aggs_at id r.stage.agg_tasks) e
        h.aggregating in
    let same = on_agg_reply-same w w' src src' r.stage s can_write f in
    let (s₀, src₀, w₀, f₀, sound) =
      on_agg_reply-IsSound w src r.stage can_write h.sound
        (λ success. owed_agg-met src r.stage.agg_tasks owed) in
    record {
      sound =
          subst IsSound (on_agg_reply-same w w₀ src src₀ r.stage s₀ can_write f₀ ∙ sym same) sound;
      proving = λ id.
          let b = h.proving id in
          let c : proves_at id s.prove_tasks ≡ proves_at id r.stage.prove_tasks =
            ap (λ (x : Stage). proves_at id x.prove_tasks) same in
          omega arith;
      aggregating = λ id.
          let b = left id in
          let a = answer_agg-aggs_at w.now src id r.stage.agg_tasks in
          let c : aggs_at id s.agg_tasks ≡ aggs_at id (answer_agg w.now src r.stage.agg_tasks).1 =
            ap (λ (x : Stage). aggs_at id x.agg_tasks) same
            ∙ cleared_aggs_at src id (answer_agg w.now src r.stage.agg_tasks).1 in
          omega arith;
    }
