-- ===== src/Stage/Run/Proves.antt =====
-- Prove tasks that go out and come back keep a run in order.
use zkm_prover.Base.{
  ◌≤◌, ◌≡◌, refl, ap, ◌∙◌, sym, subst, String, ◌==◌, Option, some, List, [], ◌∷◌, ◌++◌, str_eq,
  if◌then◌else◌, arith,
}
use zkm_prover.Platform.{World}
use zkm_prover.Tasks.{ProveTask, AggTask, task_state_success}
use zkm_prover.Stage.{Stage}
use zkm_prover.Stage.Prove.{
  take_prove, get_prove_task, answer_prove, on_prove_reply, clear_children,
}
use zkm_prover.Stage.Waiting.{proved, is_done, all_covered_mono}
use zkm_prover.Stage.Waiting.Hand.{has_prove, is_linked, all_inputs_mono}
use zkm_prover.Stage.Waiting.Answers.{IsSound, on_prove_reply-lists, on_prove_reply-IsSound}
use zkm_prover.Stage.Run.{Run}
use zkm_prover.Stage.Run.Owed.{
  owes, proves_at, aggs_at, one_if, named_prove, take_prove-proves_at, answer_prove-proves_at,
  clear_children-aggs_at, owed_prove-met, owes-back,
}

-- The stage is sound, and what is at a node is being processed.
pub record IsRunning (r : Run) : Type 0 where
  pub sound : IsSound r.stage
  pub proving : (id : String) → owes id r.proving ≤ proves_at id r.stage.prove_tasks
  pub aggregating : (id : String) → owes id r.aggregating ≤ aggs_at id r.stage.agg_tasks

proved-take_prove :
    (w : World) (id : String) (ts : List ProveTask) → proved id (take_prove w ts).0 ≡ proved id ts
unfolding take_prove
proved-take_prove w id [] = refl
proved-take_prove w id (t ∷ ts) = ground (arith, proved-take_prove w id ts)

has_prove-take_prove :
    (w : World) (id : String) (ts : List ProveTask)
    → has_prove id (take_prove w ts).0 ≡ has_prove id ts
unfolding take_prove
has_prove-take_prove w id [] = refl
has_prove-take_prove w id (t ∷ ts) = ground (arith, has_prove-take_prove w id ts)

take_prove-IsSound :
    (w : World) (proves : List ProveTask) (s : Stage)
    → IsSound s
    → IsSound (record s { prove_tasks = (take_prove w s.prove_tasks).0 })
take_prove-IsSound w proves s (waiting, linked) = (
  all_covered_mono (is_done s.prove_tasks s.agg_tasks)
      (is_done (take_prove w s.prove_tasks).0 s.agg_tasks) s.agg_tasks
      (λ id d. rw (proved-take_prove w id s.prove_tasks) d) waiting,
  all_inputs_mono (is_linked s.agg_tasks s.prove_tasks)
      (is_linked s.agg_tasks (take_prove w s.prove_tasks).0) s.agg_tasks
      (λ i d. rw (has_prove-take_prove w i.computed_request_id s.prove_tasks) d) linked,
)

get_prove_task-some :
    (w : World) (s s' : Stage) (t : ProveTask)
    → get_prove_task w s ≡ (s', some t)
    → (s' ≡ record s { prove_tasks = (take_prove w s.prove_tasks).0 })
      × ((take_prove w s.prove_tasks).1 ≡ some t)
unfolding get_prove_task
get_prove_task-some w s s' t e = (
  sym (ap (λ (p : Stage × Option ProveTask). p.0) e),
  ap (λ (p : Stage × Option ProveTask). p.1) e,
)

pub prove_out-IsRunning :
    (w : World) (r : Run) (s : Stage) (t : ProveTask)
    → get_prove_task w r.stage ≡ (s, some t)
    → IsRunning r
    → IsRunning (record r { stage = s; proving = t.task_id ∷ r.proving })
prove_out-IsRunning w r s t e h =
    let (same, found) = get_prove_task-some w r.stage s t e in
    record {
      sound = subst IsSound (sym same) (take_prove-IsSound w [] r.stage h.sound);
      proving = λ id.
          let a = take_prove-proves_at w id r.stage.prove_tasks in
          let b = h.proving id in
          let c : proves_at id s.prove_tasks ≡ proves_at id (take_prove w r.stage.prove_tasks).0 =
            ap (λ (x : Stage). proves_at id x.prove_tasks) same in
          let d : named_prove id (take_prove w r.stage.prove_tasks).1
              ≡ one_if (str_eq t.task_id id) =
            ap (named_prove id) found in
          omega arith;
      aggregating = λ id.
          let b = h.aggregating id in
          let c : aggs_at id s.agg_tasks ≡ aggs_at id r.stage.agg_tasks =
            ap (λ (x : Stage). aggs_at id x.agg_tasks) same in
          omega arith;
    }

answered_aggs_at :
    (src : ProveTask) (id : String) (ts : List AggTask)
    → aggs_at id (if src.state == task_state_success then clear_children src.task_id ts else ts)
      ≡ aggs_at id ts
answered_aggs_at src id ts = ground (arith, clear_children-aggs_at src.task_id id ts)

pub prove_back-IsRunning :
    (w : World) (src : ProveTask) (front back : List String) (r : Run)
    → r.proving ≡ front ++ src.task_id ∷ back
    → IsRunning r
    → IsRunning (record r { stage = (on_prove_reply w src r.stage).0; proving = front ++ back })
prove_back-IsRunning w src front back r e h =
    let (p, a) = on_prove_reply-lists w src r.stage in
    let (owed, left) =
      owes-back src.task_id r.proving front back (λ id. proves_at id r.stage.prove_tasks) e
        h.proving in
    record {
      sound =
          on_prove_reply-IsSound w src r.stage h.sound
            λ success. owed_prove-met src r.stage.prove_tasks owed;
      proving = λ id.
          let b = left id in
          let c = answer_prove-proves_at w.now src id r.stage.prove_tasks in
          let d : proves_at id (on_prove_reply w src r.stage).0.prove_tasks
              ≡ proves_at id (answer_prove w.now src r.stage.prove_tasks).1 =
            ap (proves_at id) p in
          omega arith;
      aggregating = λ id.
          let b = h.aggregating id in
          let c : aggs_at id (on_prove_reply w src r.stage).0.agg_tasks
              ≡ aggs_at id r.stage.agg_tasks =
            ap (aggs_at id) a ∙ answered_aggs_at src id r.stage.agg_tasks in
          omega arith;
    }
