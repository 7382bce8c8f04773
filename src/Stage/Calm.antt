-- ===== src/Stage/Calm.antt =====
-- What a step of the stage leaves alone: its context, and the number of tasks at work. Only
-- `get_prove_task` raises that number.
pub mod Making
pub mod Moving
pub mod Dispatching
use zkm_prover.Base.{ℕ, ◌≤◌, ◌≡◌, refl, ◌∙◌, Bool, ◌==◌, List, count_if, arith}
use zkm_prover.Platform.{World}
use zkm_prover.Tasks.{ProveTask, task_state_processing}
use zkm_prover.Stage.{Stage}

abbrev pub at_work : List ProveTask → ℕ
at_work = count_if λ t. t.state == task_state_processing

pub record Calms (s s' : Stage) : Type 0 where
  pub same_context : s'.generate_task ≡ s.generate_task
  pub no_more : at_work s'.prove_tasks ≤ at_work s.prove_tasks

abbrev pub CalmsTo : Stage → Stage × World → Type 0
CalmsTo s (s', w) = Calms s s'

pub Calms-refl : (s : Stage) → Calms s s
Calms-refl s = record { same_context = refl; no_more = omega arith }

pub Calms-trans : (s t u : Stage) → Calms s t → Calms t u → Calms s u
Calms-trans s t u h k =
    let a = h.no_more in
    let b = k.no_more in
    record { same_context = k.same_context ∙ h.same_context; no_more = omega arith }
