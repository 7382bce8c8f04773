-- ===== src/Stage/Calm/Dispatching.antt =====
-- `dispatch` is calm.
use zkm_prover.Base.{refl, true, ◌==◌, ◌&&◌, not, Bool-cases, inl, inr, if◌then◌else◌, all}
use zkm_prover.Platform.{
  Env, World, Result, ok, assert, Ensures, Ensures->>=, Ensures-if, Ensures-mono, Ensures-any,
  ◌>>=◌, assertion_failed,
}
use zkm_prover.Tasks.{Step, task_state_success}
use zkm_prover.Stage.{Stage, Backend}
use zkm_prover.Stage.Split.{gen_split_task}
use zkm_prover.Stage.MakeProve.{is_split, gen_prove_task, gen_prove_task_post}
use zkm_prover.Stage.Agg.{gen_agg_tasks, is_agg_step}
use zkm_prover.Stage.Snark.{gen_snark_task}
use zkm_prover.Stage.Dispatch.{
  prove_done, agg_done, successful_task_ids, plan, advance, dispatch_prove, dispatch_at, dispatch,
}
use zkm_prover.Stage.Calm.{Calms, CalmsTo, Calms-refl, Calms-trans}
use zkm_prover.Stage.Calm.Making.{gen_prove_task-Calms, gen_prove_task_post-Calms}
use zkm_prover.Stage.Calm.Moving.{
  Calms-same, gen_split_task-Calms, gen_agg_tasks-Calms, clear_all-Calms, gen_snark_task-Calms,
}

plan-Calms :
    (backend : Backend) (env : Env) (w : World) (s : Stage)
    → Ensures (CalmsTo s) (plan backend env w s)
unfolding plan
plan-Calms backend env w s =
    Ensures->>= _ (gen_prove_task_post backend env w s) _
      (gen_prove_task_post-Calms backend env w s)
      λ r first.
        Ensures->>= _
          (if r.0.generate_task.composite_proof then ok r else gen_agg_tasks backend env r.1 r.0) _
          (Ensures-if (CalmsTo r.0) r.0.generate_task.composite_proof (ok r)
            (gen_agg_tasks backend env r.1 r.0) (Calms-refl r.0)
            (gen_agg_tasks-Calms backend env r.1 r.0))
          λ q second.
            let s₃ : Stage = record q.0 { is_tasks_gen_done = true } in
            Calms-trans s q.0 _ (Calms-trans s r.0 q.0 first second) (
              Calms-trans q.0 s₃ _ (Calms-same _ _ refl refl)
                (clear_all-Calms (successful_task_ids s₃) s₃))

advance-Calms : (env : Env) (w : World) (s : Stage) → Ensures (CalmsTo s) (advance env w s)
unfolding advance
advance-Calms env w s =
    let P : Stage × World → Type 0 = CalmsTo s in
    let stay : Result (Stage × World) = ok (s, w) in
    let ended : Result (Stage × World) = ok (record s { step = Step.end }, w) in
    let last : Result (Stage × World) =
      gen_snark_task env w s >>= λ r. ok (record r.0 { step = Step.snark }, r.1) in
    let aggregated : Result (Stage × World) =
      if is_agg_step s.generate_task.target_step then ended else last in
    let waits : Result (Stage × World) = if all agg_done s.agg_tasks then aggregated else stay in
    let at_end : Calms s (record s { step = Step.end }) = Calms-same s _ refl refl in
    let at_last : Ensures P last =
      Ensures->>= P (gen_snark_task env w s) _ (gen_snark_task-Calms env w s) λ r h.
        Calms-trans s r.0 (record r.0 { step = Step.snark }) h (Calms-same r.0 _ refl refl) in
    Ensures-if P (s.is_tasks_gen_done && all prove_done s.prove_tasks)
      (if s.generate_task.composite_proof then ended else waits) stay
      (Ensures-if P s.generate_task.composite_proof ended waits at_end (
        Ensures-if P (all agg_done s.agg_tasks) aggregated stay
          (Ensures-if P (is_agg_step s.generate_task.target_step) ended last at_end at_last)
          (Calms-refl s)))
      (Calms-refl s)

after-Calms :
    (s t : Stage) (m : Result (Stage × World))
    → Calms s t
    → Ensures (CalmsTo t) m
    → Ensures (CalmsTo s) m
after-Calms s t m first h = Ensures-mono m h λ r second. Calms-trans s t r.0 first second

dispatch_prove-Calms :
    (backend : Backend) (env : Env) (w : World) (s : Stage)
    → Ensures (CalmsTo s) (dispatch_prove backend env w s)
unfolding dispatch_prove
dispatch_prove-Calms backend env w s =
    Ensures->>= _ (gen_prove_task env w s) _ (gen_prove_task-Calms env w s) λ r first.
      let ended : Result (Stage × World) = ok (record r.0 { step = Step.end }, r.1) in
      let planned : Result (Stage × World) =
        plan backend env r.1 r.0 >>= λ q. advance env q.1 q.0 in
      let fixed : Result (Stage × World) =
        if is_split r.0.generate_task.target_step then ended else planned in
      let at_planned : Ensures (CalmsTo r.0) planned =
        Ensures->>= (CalmsTo r.0) (plan backend env r.1 r.0) _ (plan-Calms backend env r.1 r.0)
          λ q second.
            after-Calms r.0 q.0 (advance env q.1 q.0) second (advance-Calms env q.1 q.0) in
      after-Calms s r.0
        (if r.0.split_task.state == task_state_success && not r.0.is_tasks_gen_done
          then fixed
          else advance env r.1 r.0)
        first
        (Ensures-if (CalmsTo r.0)
          (r.0.split_task.state == task_state_success && not r.0.is_tasks_gen_done) fixed
          (advance env r.1 r.0)
          (Ensures-if (CalmsTo r.0) (is_split r.0.generate_task.target_step) ended planned
            (Calms-same r.0 _ refl refl) at_planned)
          (advance-Calms env r.1 r.0))

dispatch_at-Calms :
    (step : Step) (backend : Backend) (env : Env) (w : World) (s : Stage)
    → Ensures (CalmsTo s) (dispatch_at step backend env w s)
unfolding dispatch_at
dispatch_at-Calms Step.init backend env w s =
    Ensures->>= _ (gen_split_task env w s) _ (gen_split_task-Calms env w s)
      λ r h. Calms-trans s r.0 _ h (Calms-same _ _ refl refl)
dispatch_at-Calms Step.prove backend env w s = dispatch_prove-Calms backend env w s
dispatch_at-Calms Step.agg backend env w s =
    Ensures->>= _ (assert (is_agg_step s.generate_task.from_step) assertion_failed) _
      (Ensures-any _)
      λ t k.
        Ensures->>= _ (gen_snark_task env w s) _ (gen_snark_task-Calms env w s)
          λ r h. Calms-trans s r.0 _ h (Calms-same _ _ refl refl)
dispatch_at-Calms Step.snark backend env w s =
    elim (Bool-cases (s.snark_task.state == task_state_success)) [
      | inl success ↦ rw success (Calms-same _ _ refl refl)
      | inr other ↦ rw other (Calms-refl s)
    ]
dispatch_at-Calms Step.split backend env w s = Calms-refl s
dispatch_at-Calms Step.end backend env w s = Calms-refl s

-- However `dispatch` moves the stage, the context stays, and no more tasks are at work.
pub dispatch-Calms :
    (backend : Backend) (env : Env) (w : World) (s : Stage)
    → Ensures (CalmsTo s) (dispatch backend env w s)
unfolding dispatch
dispatch-Calms backend env w s = dispatch_at-Calms s.step backend env w s
