-- ===== src/Stage/Prove/Laws.antt =====
-- What handing a prove task out, and its reply, do to the stage.
use zkm_prover.Base.{
  ℕ, ◌≤◌, ◌≡◌, refl, ap, inl, inr, Bool, true, false, ◌&&◌, Option, none, some, List, [], ◌∷◌, ◌++◌,
  ◌==◌, str_eq, All, any, Bool-cases, arith,
}
use zkm_prover.Platform.{World}
use zkm_prover.Tasks.{ProveTask, task_state_processing}
use zkm_prover.Tasks.Progress.{is_open, on_prove_task, max_failures}
use zkm_prover.Stage.{Stage}
use zkm_prover.Stage.Prove.{exists, take_prove, get_prove_task, answer_prove}

abbrev pub is_ready : World → ProveTask → Bool
is_ready w t = is_open t.state && exists w t.segment

abbrev handed : World → ProveTask → ProveTask
handed w t = record t { state = task_state_processing; trace = record t.trace { start_ts = w.now } }

-- What `take_prove` may do to a list: nothing, where no task is ready, or hand the first ready
-- task out and leave the rest.
pub data Takes (w : World) (ts ts' : List ProveTask) (found : Option ProveTask) : Type 0 where
  idle : any (is_ready w) ts ≡ false → ts' ≡ ts → found ≡ none → Takes w ts ts' found
  hands :
      (front back : List ProveTask) (t : ProveTask)
      → ts ≡ front ++ t ∷ back
      → any (is_ready w) front ≡ false
      → is_ready w t ≡ true
      → ts' ≡ front ++ handed w t ∷ back
      → found ≡ some (handed w t)
      → Takes w ts ts' found

take_prove-Takes :
    (w : World) (ts : List ProveTask) → Takes w ts (take_prove w ts).0 (take_prove w ts).1
unfolding take_prove
take_prove-Takes w [] = idle refl refl refl
take_prove-Takes w (t ∷ ts) = elim (Bool-cases (is_ready w t)) [
  | inl ready ↦ hands [] ts t refl refl ready (rw ready) (rw ready)
  | inr busy ↦ elim (take_prove-Takes w ts) [
    | idle none_ready same nothing ↦
        idle (rw (busy, none_ready)) (rw busy (ap (◌∷◌ t) same)) (rw busy nothing)
    | hands front back u e none_ready ready same found ↦
        hands (t ∷ front) back u (ap (◌∷◌ t) e) (rw (busy, none_ready)) ready
          (rw busy (ap (◌∷◌ t) same)) (rw busy found)
  ]
]

-- get_prove_task hands out the first open task whose segment file is there, and no other task
-- changes; it hands out nothing only if there is no such task.
pub get_prove_task-Takes :
    (w : World) (s : Stage)
    → Takes w s.prove_tasks (get_prove_task w s).0.prove_tasks (get_prove_task w s).1
unfolding get_prove_task
get_prove_task-Takes w s = take_prove-Takes w s.prove_tasks

abbrev pub CountsFailures : ProveTask → Type 0
CountsFailures t = t.failure_count ≤ max_failures

on_prove_task-CountsFailures :
    (now : ℕ) (src t : ProveTask) → CountsFailures t → CountsFailures (on_prove_task now src t).dst
unfolding on_prove_task
on_prove_task-CountsFailures now src t h = ground arith

answer_prove-CountsFailures :
    (now : ℕ) (src : ProveTask) (ts : List ProveTask)
    → All CountsFailures ts
    → All CountsFailures (answer_prove now src ts).1
unfolding answer_prove
answer_prove-CountsFailures now src [] h = tt
answer_prove-CountsFailures now src (t ∷ ts) h =
    elim (Bool-cases (str_eq t.task_id src.task_id && t.state == task_state_processing)) [
      | inl met ↦ rw met (on_prove_task-CountsFailures now src t h.0, h.1)
      | inr other ↦ rw other (h.0, answer_prove-CountsFailures now src ts h.1)
    ]
