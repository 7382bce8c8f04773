-- ===== src/Stage/Prove/Replies.antt =====
-- What the reply to a prove task does: which task it meets, when it is tried again, and when the
-- stage is given up.
use zkm_prover.Base.{
  ℕ, suc, ◌+◌, ◌≤◌, ◌<◌, ◌≡◌, refl, ap, ◌∙◌, inl, inr, Bool, true, false, ◌&&◌, ◌||◌, Option, none,
  some, List, [], ◌∷◌, ◌++◌, ◌==◌, leb, str_eq, if◌then◌else◌, count_if, any, find, Bool-cases,
  &&-eq-true, arith,
}
use zkm_prover.Platform.{World}
use zkm_prover.Tasks.{
  ProveTask, task_state_processing, task_state_failed, task_state_success, task_state_unprocessed,
}
use zkm_prover.Tasks.Progress.{on_prove_task, is_open}
use zkm_prover.Stage.{Stage}
use zkm_prover.Stage.Prove.{
  take_prove, get_prove_task, answer_prove, on_prove_reply, count_processing_prove_tasks,
  clear_agg_child_task,
}

-- A reply meets a task under its id that is being processed.
abbrev pub meets : ProveTask → ProveTask → Bool
meets src t = str_eq t.task_id src.task_id && t.state == task_state_processing

-- The reply is a failure, and the task has failed three times before.
abbrev pub is_last_failure : ProveTask → Option ProveTask → Bool
is_last_failure src none = false
is_last_failure src (some t) = src.state == task_state_failed && leb 3 t.failure_count

on_prove_task-fails :
    (now : ℕ) (src t : ProveTask) → (on_prove_task now src t).fails ≡ is_last_failure src (some t)
unfolding on_prove_task
on_prove_task-fails now src t = ground arith

on_prove_task-src :
    (now : ℕ) (src t : ProveTask)
    → ((on_prove_task now src t).src.state ≡ src.state)
      × ((on_prove_task now src t).src.task_id ≡ src.task_id)
unfolding on_prove_task
on_prove_task-src now src t = (ground arith, ground arith)

answer_prove-fails :
    (now : ℕ) (src : ProveTask) (ts : List ProveTask)
    → (answer_prove now src ts).2 ≡ is_last_failure src (find (meets src) ts)
unfolding answer_prove
answer_prove-fails now src [] = refl
answer_prove-fails now src (t ∷ ts) = elim (Bool-cases (meets src t)) [
  | inl met ↦ rw met (on_prove_task-fails now src t)
  | inr other ↦ rw other (answer_prove-fails now src ts)
]

-- A reply marks the stage as failed exactly when it is a failure of the task that it meets, and
-- that task has failed three times before: by the fourth failure.
pub on_prove_reply-is_error :
    (w : World) (src : ProveTask) (s : Stage)
    → (on_prove_reply w src s).0.is_error
      ≡ (is_last_failure src (find (meets src) s.prove_tasks) || s.is_error)
unfolding on_prove_reply clear_agg_child_task
on_prove_reply-is_error w src s = ground (arith, answer_prove-fails w.now src s.prove_tasks)

pub answer_prove_met :
    (now : ℕ) (src : ProveTask) (front back : List ProveTask) (t : ProveTask)
    → any (meets src) front ≡ false
    → meets src t ≡ true
    → (answer_prove now src (front ++ t ∷ back)).1 ≡ front ++ (on_prove_task now src t).dst ∷ back
unfolding answer_prove
answer_prove_met now src [] back t none_before met = rw met
answer_prove_met now src (u ∷ front) back t none_before met =
    ground (arith, answer_prove_met now src front back t)

pub on_prove_reply-tasks :
    (w : World) (src : ProveTask) (s : Stage)
    → (on_prove_reply w src s).0.prove_tasks ≡ (answer_prove w.now src s.prove_tasks).1
unfolding on_prove_reply clear_agg_child_task
on_prove_reply-tasks w src s = ground arith

is_last_failure_few :
    (src t : ProveTask) (front back : List ProveTask)
    → any (meets src) front ≡ false
    → meets src t ≡ true
    → t.failure_count < 3
    → is_last_failure src (find (meets src) (front ++ t ∷ back)) ≡ false
is_last_failure_few src t [] back none_before met few = ground arith
is_last_failure_few src t (u ∷ front) back none_before met few =
    ground (arith, is_last_failure_few src t front back)

-- A task that fails, having failed fewer than three times before, stands in its place, open for
-- the next get_prove_task, with one more failure and the node that failed on record, and the stage
-- is not marked: not by the third failure either.
pub on_prove_reply_retries :
    (w : World) (src : ProveTask) (s : Stage) (front back : List ProveTask) (t : ProveTask)
    → s.prove_tasks ≡ front ++ t ∷ back
    → any (meets src) front ≡ false
    → meets src t ≡ true
    → src.state ≡ task_state_failed
    → t.failure_count < 3
    → (t' : ProveTask) × ((on_prove_reply w src s).0.prove_tasks ≡ front ++ t' ∷ back)
      × (is_open t'.state ≡ true)
      × (t'.failure_count ≡ suc t.failure_count)
      × (t'.trace.node_info ≡ src.trace.node_info)
      × ((on_prove_reply w src s).0.is_error ≡ s.is_error)
unfolding on_prove_task
on_prove_reply_retries w src s front back t e none_before met failed few = (
  (on_prove_task w.now src t).dst,
  on_prove_reply-tasks w src s
      ∙ ap (λ (ts : List ProveTask). (answer_prove w.now src ts).1) e
      ∙ answer_prove_met w.now src front back t none_before met,
  ground arith,
  ground arith,
  ground arith,
  on_prove_reply-is_error w src s
      ∙ ap (λ (b : Bool). b || s.is_error)
          (ap (λ (ts : List ProveTask). is_last_failure src (find (meets src) ts)) e
            ∙ is_last_failure_few src t front back none_before met few),
)

abbrev pub is_processing : ProveTask → Bool
is_processing t = t.state == task_state_processing

abbrev pub found_one {ℓ} : {A : Type ℓ} → Option A → ℕ
found_one none = 0
found_one (some _) = 1

take_prove-count :
    (w : World) (ts : List ProveTask)
    → count_if is_processing (take_prove w ts).0
      ≡ count_if is_processing ts + found_one (take_prove w ts).1
unfolding take_prove
take_prove-count w [] = refl
take_prove-count w (t ∷ ts) = ground (arith, take_prove-count w ts)

-- get_prove_task makes one more task processed where it hands one out, and none where it does not.
pub get_prove_task-count :
    (w : World) (s : Stage)
    → count_processing_prove_tasks (get_prove_task w s).0
      ≡ count_processing_prove_tasks s + found_one (get_prove_task w s).1
unfolding get_prove_task count_processing_prove_tasks
get_prove_task-count w s = take_prove-count w s.prove_tasks

-- A reply says how a call has ended: with a failure, a success, or a task to be tried again.
abbrev pub says_end : ProveTask → Bool
says_end src =
    src.state == task_state_failed
    || src.state == task_state_success
    || src.state == task_state_unprocessed

-- How many tasks a reply ends, by the task that it meets.
abbrev pub ended_by : ProveTask → Option ProveTask → ℕ
ended_by src none = 0
ended_by src (some t) = if says_end src then 1 else 0

on_prove_task-processing :
    (now : ℕ) (src t : ProveTask)
    → meets src t ≡ true
    → (if is_processing (on_prove_task now src t).dst then 1 else 0) + ended_by src (some t) ≡ 1
unfolding on_prove_task
on_prove_task-processing now src t met = ground arith

answer_prove-count :
    (now : ℕ) (src : ProveTask) (ts : List ProveTask)
    → count_if is_processing (answer_prove now src ts).1 + ended_by src (find (meets src) ts)
      ≡ count_if is_processing ts
unfolding answer_prove
answer_prove-count now src [] = refl
answer_prove-count now src (t ∷ ts) = elim (Bool-cases (meets src t)) [
  | inl met ↦
      let (named, processing) = &&-eq-true (str_eq t.task_id src.task_id) (is_processing t) met in
      rw met (
        omega (
          arith,
          on_prove_task-processing now src t met,
          ap {B = ℕ} (λ (b : Bool). if b then 1 else 0) processing,
        ))
  | inr other ↦ rw other (omega (arith, answer_prove-count now src ts))
]

pub on_prove_reply-count :
    (w : World) (src : ProveTask) (s : Stage)
    → count_processing_prove_tasks (on_prove_reply w src s).0
        + ended_by src (find (meets src) s.prove_tasks)
      ≡ count_processing_prove_tasks s
unfolding count_processing_prove_tasks
on_prove_reply-count w src s =
    rw (on_prove_reply-tasks w src s) (answer_prove-count w.now src s.prove_tasks)

-- A reply makes no more tasks processed.
pub on_prove_reply-count_le :
    (w : World) (src : ProveTask) (s : Stage)
    → count_processing_prove_tasks (on_prove_reply w src s).0 ≤ count_processing_prove_tasks s
on_prove_reply-count_le w src s = omega (arith, on_prove_reply-count w src s)
