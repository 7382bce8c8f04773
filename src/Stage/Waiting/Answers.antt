-- ===== src/Stage/Waiting/Answers.antt =====
-- `on_prove_task` keeps every task waiting for what is not done.
use zkm_prover.Base.{
  ℕ, ◌≡◌, refl, inl, inr, String, true, List, [], ◌∷◌, ◌==◌, if◌then◌else◌, any, Bool-cases, arith,
}
use zkm_prover.Platform.{World}
use zkm_prover.Tasks.{ProveTask, AggTask, task_state_success}
use zkm_prover.Tasks.Progress.{on_prove_task}
use zkm_prover.Stage.{Stage}
use zkm_prover.Stage.Prove.{answer_prove, clear_children, clear_agg_child_task, on_prove_reply}
use zkm_prover.Stage.Prove.Replies.{meets}
use zkm_prover.Stage.Waiting.{proved, is_done, IsWaiting, all_covered_mono}
use zkm_prover.Stage.Waiting.Hand.{has_prove, is_linked, IsLinked, all_inputs_mono}
use zkm_prover.Stage.Waiting.Replies.{clear_children-IsWaiting, clear_children-IsLinked}

on_prove_task-dst :
    (now : ℕ) (src t : ProveTask)
    → ((on_prove_task now src t).dst.task_id ≡ t.task_id)
      × (src.state ≡ task_state_success → (on_prove_task now src t).dst.state ≡ task_state_success)
unfolding on_prove_task
on_prove_task-dst now src t = (ground arith, λ h. ground arith)

proved-answer_prove :
    (now : ℕ) (src : ProveTask) (id : String) (ts : List ProveTask)
    → proved id ts ≡ true
    → proved id (answer_prove now src ts).1 ≡ true
unfolding answer_prove
proved-answer_prove now src id [] h = cc
proved-answer_prove now src id (t ∷ ts) h = elim (Bool-cases (meets src t)) [
  | inl met ↦ rw met (ground arith)
  | inr other ↦ rw other (ground (arith, proved-answer_prove now src id ts))
]

-- The task that a successful reply meets is done.
proved-answer_prove_met :
    (now : ℕ) (src : ProveTask) (ts : List ProveTask)
    → any (meets src) ts ≡ true
    → src.state ≡ task_state_success
    → proved src.task_id (answer_prove now src ts).1 ≡ true
unfolding answer_prove
proved-answer_prove_met now src [] h k = cc
proved-answer_prove_met now src (t ∷ ts) h k = elim (Bool-cases (meets src t)) [
  | inl met ↦ rw met (ground (arith, on_prove_task-dst now src t))
  | inr other ↦ rw other (ground (arith, proved-answer_prove_met now src ts))
]

has_prove-answer_prove :
    (now : ℕ) (src : ProveTask) (id : String) (ts : List ProveTask)
    → has_prove id (answer_prove now src ts).1 ≡ has_prove id ts
unfolding answer_prove
has_prove-answer_prove now src id [] = refl
has_prove-answer_prove now src id (t ∷ ts) = elim (Bool-cases (meets src t)) [
  | inl met ↦ rw met (ground (arith, on_prove_task-dst now src t))
  | inr other ↦ rw other (ground (arith, has_prove-answer_prove now src id ts))
]

answer_prove-src :
    (now : ℕ) (src : ProveTask) (ts : List ProveTask)
    → ((answer_prove now src ts).0.state ≡ src.state)
      × ((answer_prove now src ts).0.task_id ≡ src.task_id)
unfolding answer_prove on_prove_task
answer_prove-src now src [] = (refl, refl)
answer_prove-src now src (t ∷ ts) = ground (arith, answer_prove-src now src ts)

-- Every task waits for what is not done, and names tasks that the stage has.
abbrev pub IsSound : Stage → Type 0
IsSound s = IsWaiting s.prove_tasks s.agg_tasks × IsLinked s.prove_tasks s.agg_tasks

answer_prove-IsWaiting :
    (now : ℕ) (src : ProveTask) (proves : List ProveTask) (aggs : List AggTask)
    → IsWaiting proves aggs
    → IsWaiting (answer_prove now src proves).1 aggs
answer_prove-IsWaiting now src proves aggs =
    all_covered_mono (is_done proves aggs) (is_done (answer_prove now src proves).1 aggs) aggs
      (λ id d. ground (arith, proved-answer_prove now src id proves))

answer_prove-IsLinked :
    (now : ℕ) (src : ProveTask) (proves : List ProveTask) (aggs : List AggTask)
    → IsLinked proves aggs
    → IsLinked (answer_prove now src proves).1 aggs
answer_prove-IsLinked now src proves aggs =
    all_inputs_mono (is_linked aggs proves) (is_linked aggs (answer_prove now src proves).1) aggs
      (λ i d. rw (has_prove-answer_prove now src i.computed_request_id proves) d)

pub on_prove_reply-lists :
    (w : World) (src : ProveTask) (s : Stage)
    → let s' = (on_prove_reply w src s).0 in
      (s'.prove_tasks ≡ (answer_prove w.now src s.prove_tasks).1)
      × (s'.agg_tasks ≡ (
          if src.state == task_state_success
          then clear_children src.task_id s.agg_tasks
          else s.agg_tasks))
unfolding on_prove_reply clear_agg_child_task
on_prove_reply-lists w src s = (
  ground arith,
  rw ((answer_prove-src w.now src s.prove_tasks).0, (answer_prove-src w.now src s.prove_tasks).1)
      (ground arith),
)

pub IsSound-of :
    (proves : List ProveTask) (aggs : List AggTask) (s : Stage)
    → s.prove_tasks ≡ proves
    → s.agg_tasks ≡ aggs
    → IsWaiting proves aggs
    → IsLinked proves aggs
    → IsSound s
IsSound-of proves aggs s p a h k = rw (p, a) (h, k)

-- A reply to a prove task keeps every aggregation task waiting for what is not done and naming
-- tasks of the stage, if a successful reply answers a task that is being processed.
pub on_prove_reply-IsSound :
    (w : World) (src : ProveTask) (s : Stage)
    → IsSound s
    → (src.state ≡ task_state_success → any (meets src) s.prove_tasks ≡ true)
    → IsSound (on_prove_reply w src s).0
on_prove_reply-IsSound w src s (waiting, linked) answers =
    let proves = (answer_prove w.now src s.prove_tasks).1 in
    let (p, a) = on_prove_reply-lists w src s in
    let waiting' : IsWaiting proves s.agg_tasks =
      answer_prove-IsWaiting w.now src s.prove_tasks s.agg_tasks waiting in
    let linked' : IsLinked proves s.agg_tasks =
      answer_prove-IsLinked w.now src s.prove_tasks s.agg_tasks linked in
    elim (Bool-cases (src.state == task_state_success)) [
      | inl success ↦
          IsSound-of proves (clear_children src.task_id s.agg_tasks) (on_prove_reply w src s).0 p
            (rw success at a)
            (clear_children-IsWaiting src.task_id proves s.agg_tasks (done success) waiting')
            (clear_children-IsLinked src.task_id proves s.agg_tasks linked')
      | inr other ↦
          IsSound-of proves s.agg_tasks (on_prove_reply w src s).0 p (rw other at a) waiting'
            linked'
    ]
  where
    done :
        (src.state == task_state_success) ≡ true
        → is_done (answer_prove w.now src s.prove_tasks).1 s.agg_tasks src.task_id ≡ true
    done success =
        let e : src.state ≡ task_state_success = ground arith in
        rw (proved-answer_prove_met w.now src s.prove_tasks (answers e) e)
