-- ===== src/Stage/Run/Steady.antt =====
-- Once the tasks are fixed, `dispatch` leaves the lists of tasks as they are.
use zkm_prover.Base.{
  ◌≡◌, refl, Bool, true, ◌==◌, ◌&&◌, not, Bool-cases, inl, inr, if◌then◌else◌, all, arith,
}
use zkm_prover.Platform.{
  Env, World, Result, ok, assert, Ensures, Ensures->>=, Ensures-any, Ensures-if, ◌>>=◌,
  assertion_failed,
}
use zkm_prover.Tasks.{Step, task_state_success, task_state_initial}
use zkm_prover.Stage.{Stage, Backend}
use zkm_prover.Stage.Split.{gen_split_task}
use zkm_prover.Stage.MakeProve.{gen_prove_task}
use zkm_prover.Stage.Agg.{is_agg_step}
use zkm_prover.Stage.Snark.{gen_snark_task, fill_receipt}
use zkm_prover.Stage.Dispatch.{prove_done, agg_done, advance, dispatch_prove, dispatch_at, dispatch}

abbrev pub Steady : Stage → Stage × World → Type 0
Steady s (s', w) = (s'.prove_tasks ≡ s.prove_tasks) × (s'.agg_tasks ≡ s.agg_tasks)

gen_snark_task-Steady :
    (env : Env) (w : World) (s : Stage) → Ensures (Steady s) (gen_snark_task env w s)
unfolding gen_snark_task
gen_snark_task-Steady env w s =
    Ensures->>= _ (assert (s.snark_task.state == task_state_initial) assertion_failed) _
      (Ensures-any _)
      λ t h.
        Ensures->>= _ (fill_receipt s.generate_task.from_step env w s _) _ (Ensures-any _)
          λ t k. (refl, refl)

to_snark-Steady :
    (env : Env) (w : World) (s : Stage)
    → Ensures
        (Steady s)
        (gen_snark_task env w s >>= λ r. ok (record r.0 { step = Step.snark }, r.1))
to_snark-Steady env w s =
    Ensures->>= (Steady s) (gen_snark_task env w s) _ (gen_snark_task-Steady env w s) λ r h. h

advance-Steady : (env : Env) (w : World) (s : Stage) → Ensures (Steady s) (advance env w s)
unfolding advance
advance-Steady env w s =
    let P : Stage × World → Type 0 = Steady s in
    let stay : Result (Stage × World) = ok (s, w) in
    let ended : Result (Stage × World) = ok (record s { step = Step.end }, w) in
    let last : Result (Stage × World) =
      gen_snark_task env w s >>= λ r. ok (record r.0 { step = Step.snark }, r.1) in
    let aggregated : Result (Stage × World) =
      if is_agg_step s.generate_task.target_step then ended else last in
    let waits : Result (Stage × World) = if all agg_done s.agg_tasks then aggregated else stay in
    Ensures-if P (s.is_tasks_gen_done && all prove_done s.prove_tasks)
      (if s.generate_task.composite_proof then ended else waits) stay
      (Ensures-if P s.generate_task.composite_proof ended waits (refl, refl)
        (Ensures-if P (all agg_done s.agg_tasks) aggregated stay
          (Ensures-if P (is_agg_step s.generate_task.target_step) ended last (refl, refl)
            (to_snark-Steady env w s))
          (refl, refl)))
      (refl, refl)

gen_prove_task-fixed :
    (env : Env) (w : World) (s : Stage)
    → s.is_tasks_gen_done ≡ true
    → gen_prove_task env w s ≡ ok (s, w)
unfolding gen_prove_task
gen_prove_task-fixed env w s fixed = ground arith

skipped : (a b : Bool) (m n : Result (Stage × World)) → b ≡ true → (if a && not b then m else n) ≡ n
skipped a b m n h = ground arith

gen_split_task-Steady :
    (env : Env) (w : World) (s : Stage) → Ensures (Steady s) (gen_split_task env w s)
unfolding gen_split_task
gen_split_task-Steady env w s =
    Ensures->>= _ (assert (s.split_task.state == task_state_initial) assertion_failed) _
      (Ensures-any _) λ t h. (refl, refl)

dispatch_prove-fixed :
    (backend : Backend) (env : Env) (w : World) (s : Stage)
    → s.is_tasks_gen_done ≡ true
    → dispatch_prove backend env w s ≡ advance env w s
unfolding dispatch_prove
dispatch_prove-fixed backend env w s fixed = rw (gen_prove_task-fixed env w s fixed) (
    skipped (s.split_task.state == task_state_success) s.is_tasks_gen_done _ (advance env w s)
      fixed)

dispatch_at-Steady :
    (step : Step) (backend : Backend) (env : Env) (w : World) (s : Stage)
    → s.is_tasks_gen_done ≡ true
    → Ensures (Steady s) (dispatch_at step backend env w s)
unfolding dispatch_at
dispatch_at-Steady Step.init backend env w s fixed =
    Ensures->>= (Steady s) (gen_split_task env w s) _ (gen_split_task-Steady env w s) λ r h. h
dispatch_at-Steady Step.prove backend env w s fixed =
    rw (dispatch_prove-fixed backend env w s fixed) (advance-Steady env w s)
dispatch_at-Steady Step.agg backend env w s fixed =
    Ensures->>= _ (assert (is_agg_step s.generate_task.from_step) assertion_failed) _
      (Ensures-any _) λ t k. to_snark-Steady env w s
dispatch_at-Steady Step.snark backend env w s fixed =
    elim (Bool-cases (s.snark_task.state == task_state_success)) [
      | inl success ↦ rw success (refl, refl)
      | inr other ↦ rw other (refl, refl)
    ]
dispatch_at-Steady Step.split backend env w s fixed = (refl, refl)
dispatch_at-Steady Step.end backend env w s fixed = (refl, refl)

pub dispatch-Steady :
    (backend : Backend) (env : Env) (w : World) (s : Stage)
    → s.is_tasks_gen_done ≡ true
    → Ensures (Steady s) (dispatch backend env w s)
unfolding dispatch
dispatch-Steady backend env w s = dispatch_at-Steady s.step backend env w s
