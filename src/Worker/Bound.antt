-- ===== src/Worker/Bound.antt =====
-- A proof never has more prove tasks at work than `max_prover_num`, round after round.
use zkm_prover.Base.{
  ℕ, ◌+◌, ◌≤◌, ◌≡◌, refl, ap, sym, subst, ◌&&◌, ◌||◌, Option, none, some, List, ltb, ltb→lt, arith,
  Bool-cases, inl, inr,
}
use zkm_prover.Platform.{Env, World, Result, ok, Ensures, Ensures->>=, Ensures-if, ◌>>=◌}
use zkm_prover.Tasks.{Step, AggTask}
use zkm_prover.Stage.{Backend, Stage}
use zkm_prover.Stage.Prove.{
  get_prove_task, count_processing_prove_tasks, count_unfinished_prove_tasks,
}
use zkm_prover.Stage.Prove.Replies.{found_one, get_prove_task-count}
use zkm_prover.Stage.Split.{get_split_task}
use zkm_prover.Stage.Agg.{get_agg_task, on_agg_reply}
use zkm_prover.Stage.Snark.{on_snark_reply}
use zkm_prover.Stage.Dispatch.{dispatch, is_success}
use zkm_prover.Stage.Calm.{at_work, Calms, Calms-refl}
use zkm_prover.Stage.Calm.Moving.{
  get_split_task-Calms, on_split_reply-Calms, on_prove_reply-Calms, get_agg_task-Calms,
  on_agg_reply-Calms, get_snark_task-Calms, on_snark_reply-Calms,
}
use zkm_prover.Stage.Calm.Dispatching.{dispatch-Calms}
use zkm_prover.Database.{Database}
use zkm_prover.Worker.{
  Task, split, prove, agg, snark, Codec, give_prove_task, give_agg_task, give_at, give, receive,
  Work, write_progress, Round, done, goes_on, round,
}

abbrev pub IsBounded : Stage → Type 0
IsBounded s = at_work s.prove_tasks ≤ s.generate_task.max_prover_num

Calms-IsBounded : (s s' : Stage) → Calms s s' → IsBounded s → IsBounded s'
Calms-IsBounded s s' calm h =
    let a = calm.no_more in
    let b : s'.generate_task.max_prover_num ≡ s.generate_task.max_prover_num =
      ap (λ g. g.max_prover_num) calm.same_context in
    omega arith

found_one-le : {A : Type 0} (o : Option A) → found_one o ≤ 1
found_one-le none = omega arith
found_one-le (some a) = omega arith

get_prove_task-context :
    (w : World) (s : Stage) → (get_prove_task w s).0.generate_task ≡ s.generate_task
unfolding get_prove_task
get_prove_task-context w s = refl

give_prove_task-IsBounded :
    (w : World) (s : Stage) → IsBounded s → IsBounded (give_prove_task w s).0
unfolding give_prove_task count_processing_prove_tasks
give_prove_task-IsBounded w s h =
    elim (Bool-cases (ltb (at_work s.prove_tasks) s.generate_task.max_prover_num)) [
      | inr full ↦ rw full h
      | inl room ↦
          let s' : Stage = (get_prove_task w s).0 in
          let count : at_work s'.prove_tasks
              ≡ at_work s.prove_tasks + found_one (get_prove_task w s).1 =
            get_prove_task-count w s in
          let one = found_one-le (get_prove_task w s).1 in
          let same : s'.generate_task.max_prover_num ≡ s.generate_task.max_prover_num =
            ap (λ g. g.max_prover_num) (get_prove_task-context w s) in
          let below = ltb→lt (at_work s.prove_tasks) s.generate_task.max_prover_num room in
          let bound : IsBounded s' = omega arith in rw room bound
    ]

give_agg_task-Calms :
    (w : World) (s : Stage)
    → Ensures (λ (r : Stage × Option AggTask). Calms s r.0) (give_agg_task w s)
unfolding give_agg_task
give_agg_task-Calms w s =
    Ensures-if (λ (r : Stage × Option AggTask). Calms s r.0)
      (s.is_tasks_gen_done && ltb (count_unfinished_prove_tasks s) s.generate_task.max_prover_num)
      (get_agg_task w s) (ok (s, none)) (get_agg_task-Calms w s) (Calms-refl s)

give_at-IsBounded :
    (step : Step) (w : World) (s : Stage)
    → IsBounded s
    → Ensures (λ (r : Stage × List Task). IsBounded r.0) (give_at step w s)
unfolding give_at
give_at-IsBounded Step.prove w s h =
    let s₁ : Stage = (get_split_task w s).0 in
    let s₂ : Stage = (give_prove_task w s₁).0 in
    Ensures->>= _ (give_agg_task w s₂) _ (give_agg_task-Calms w s₂) λ r calm.
      Calms-IsBounded s₂ r.0 calm
        (give_prove_task-IsBounded w s₁ (Calms-IsBounded s s₁ (get_split_task-Calms w s) h))
give_at-IsBounded Step.snark w s h = Calms-IsBounded s _ (get_snark_task-Calms w s) h
give_at-IsBounded Step.init w s h = h
give_at-IsBounded Step.split w s h = h
give_at-IsBounded Step.agg w s h = h
give_at-IsBounded Step.end w s h = h

receive-Calms :
    (codec : Codec) (w : World) (event : Option Task) (s : Stage) (db : Database)
    → Ensures (λ (r : Stage × Database × World). Calms s r.0) (receive codec w event s db)
unfolding receive
receive-Calms codec w none s db = Calms-refl s
receive-Calms codec w (some (split t)) s db = on_split_reply-Calms w t s
receive-Calms codec w (some (prove t)) s db = on_prove_reply-Calms w t s
receive-Calms codec w (some (agg t)) s db =
    Ensures->>= _ (on_agg_reply w t s) _ (on_agg_reply-Calms w t s) λ r calm. calm
receive-Calms codec w (some (snark t)) s db =
    Ensures->>= _ (on_snark_reply w t s) _ (on_snark_reply-Calms w t s) λ r calm. calm

abbrev pub stage_of : Round → Stage
stage_of (done work w calls) = work.stage
stage_of (goes_on work w calls) = work.stage

write_progress-stage :
    (now : ℕ) (before : Step) (work : Work) → (write_progress now before work).stage ≡ work.stage
unfolding write_progress
write_progress-stage now before work = ground arith

-- A round of the worker's loop that begins with at most max_prover_num prove tasks at work ends
-- so, whatever it hands out, whatever reply comes in and however the stage moves, unless it
-- panics.
pub round-IsBounded :
    (backend : Backend) (codec : Codec) (env : Env) (w : World) (event : Option Task) (work : Work)
    → IsBounded work.stage
    → Ensures (λ r. IsBounded (stage_of r)) (round backend codec env w event work)
unfolding round give
round-IsBounded backend codec env w event work h =
    Ensures->>= _ (give_at work.stage.step w work.stage) _
      (give_at-IsBounded work.stage.step w work.stage h)
      λ r bound.
        Ensures->>= _ (receive codec w event r.0 work.db) _
          (receive-Calms codec w event r.0 work.db)
          λ q calm.
            let s₂ : Stage = q.0 in
            let bound₂ : IsBounded s₂ = Calms-IsBounded r.0 s₂ calm bound in
            let after : Work = record work { stage = s₂; db = q.1 } in
            let moved : Result Round = dispatch backend env q.2 s₂ >>= λ p. ok (
              goes_on (write_progress p.1.now work.stage.step (record after { stage = p.0 })) p.1
                r.1) in
            let at_moved : Ensures (λ r. IsBounded (stage_of r)) moved =
              Ensures->>= (λ r. IsBounded (stage_of r)) (dispatch backend env q.2 s₂) _
                (dispatch-Calms backend env q.2 s₂)
                λ p calm₂.
                  subst IsBounded
                    (sym
                      (write_progress-stage p.1.now work.stage.step (record after { stage = p.0 })))
                    (Calms-IsBounded s₂ p.0 calm₂ bound₂) in
            Ensures-if (λ r. IsBounded (stage_of r)) (is_success s₂ || s₂.is_error)
              (ok (done after q.2 r.1)) moved bound₂ at_moved
