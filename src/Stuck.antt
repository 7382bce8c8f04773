-- ===== src/Stuck.antt =====
-- The last task of a stage through `get_snark_task`, `snark_proof` and `on_snark_task`.
use zkm_prover.Base.{ℕ, ◌≤◌, none, some, ◌≡◌, arith, ap, ◌∙◌}
use zkm_prover.Platform.{World, ok, write}
use zkm_prover.Tasks.{SnarkTask, task_state_processing}
use zkm_prover.Tasks.Progress.{on_task}
use zkm_prover.Stage.{Stage}
use zkm_prover.Stage.Snark.{get_snark_task, on_snark_reply}
use zkm_prover.Client.{Pool, Outside}
use zkm_prover.Client.Calls.{returns, begin_snark}
use zkm_prover.Client.Laws.{begin_snark-at_limit}

get_snark_task-taken :
    (w : World) (s s₁ : Stage) (t : SnarkTask)
    → get_snark_task w s ≡ (s₁, some t)
    → (s₁.snark_task ≡ t)
      × (t.state ≡ task_state_processing)
      × (s₁.is_error ≡ s.is_error)
      × (s₁.step ≡ s.step)
unfolding get_snark_task
get_snark_task-taken w s s₁ t e =
    (ground (arith, e), ground (arith, e), ground (arith, e), ground (arith, e))

get_snark_task-processing :
    (w : World) (s : Stage)
    → s.snark_task.state ≡ task_state_processing
    → get_snark_task w s ≡ (s, none)
unfolding get_snark_task
get_snark_task-processing w s e = ground (arith, e)

on_snark_reply-processing :
    (w w₁ : World) (s s₁ : Stage) (src t : SnarkTask)
    → src.state ≡ task_state_processing
    → on_snark_reply w src s ≡ ok (s₁, t, w₁)
    → (s₁.snark_task.state ≡ s.snark_task.state) × (s₁.is_error ≡ s.is_error) × (s₁.step ≡ s.step)
unfolding on_snark_reply on_task write
on_snark_reply-processing w w₁ s s₁ src t e f =
    (ground (arith, e, f), ground (arith, e, f), ground (arith, e, f))

-- A snark task that was handed out, and whose call finds the count at its limit, is never handed
-- out again: the call returns it as it came, the handler then leaves the stored task being
-- processed, with neither an error nor a new step, and get_snark_task gives nothing at any time.
pub snark_task_stuck :
    (w w₁ w₂ later : World) (s s₁ s₂ : Stage) (t u v : SnarkTask) (out : Outside)
    (max_prover_num : ℕ) (p q : Pool)
    → get_snark_task w s ≡ (s₁, some t)
    → max_prover_num ≤ p.cur_prover_num
    → begin_snark out max_prover_num t p ≡ (q, returns u)
    → on_snark_reply w₁ u s₁ ≡ ok (s₂, v, w₂)
    → (s₂.snark_task.state ≡ task_state_processing)
      × (s₂.is_error ≡ s.is_error)
      × (s₂.step ≡ s.step)
      × (get_snark_task later s₂ ≡ (s₂, none))
snark_task_stuck w w₁ w₂ later s s₁ s₂ t u v out max_prover_num p q e h f g =
    let (same, state, error₀, step₀) = get_snark_task-taken w s s₁ t e in
    let called = begin_snark-at_limit out max_prover_num p t h in
    let as_came : u ≡ t = ground (arith, called, f) in
    let state_u : u.state ≡ task_state_processing =
      ap (λ (x : SnarkTask). x.state) as_came ∙ state in
    let (kept, error, step) = on_snark_reply-processing w₁ w₂ s₁ s₂ u v state_u g in
    let stuck : s₂.snark_task.state ≡ task_state_processing =
      kept ∙ ap (λ (x : SnarkTask). x.state) same ∙ state in
    (stuck, error ∙ error₀, step ∙ step₀, get_snark_task-processing later s₂ stuck)
