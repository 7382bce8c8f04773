-- ===== src/Worker.antt =====
-- proof-service/src/stage/stage_worker.rs: `run_stage_task`, the loop that drives one proof. A round
-- hands tasks out, takes one reply at most, and moves the stage on; what a task's call replies comes
-- in from outside. serde_json and UTF-8 decoding are parameters.
pub mod Finish
pub mod Status
pub mod Bound
pub mod Row
pub mod Queue
pub mod Single
use zkm_prover.Base.{
  ℕ, ◌+◌, String, Bool, true, false, ◌&&◌, ◌||◌, not, Option, none, some, List, [], ◌∷◌, ◌++◌, ltb,
  ◌==◌, if◌then◌else◌,
}
use zkm_prover.Platform.{Bytes, Result, ok, ◌>>=◌, Env, World}
use zkm_prover.Tasks.{
  Step, Trace, duration, GenerateTask, SplitTask, ProveTask, AggTask, SnarkTask, task_state_success,
  task_state_failed,
}
use zkm_prover.Stage.{Backend, Stage, new}
use zkm_prover.Stage.Split.{get_split_task, on_split_reply}
use zkm_prover.Stage.Prove.{
  get_prove_task, on_prove_reply, count_processing_prove_tasks, count_unfinished_prove_tasks,
}
use zkm_prover.Stage.Agg.{get_agg_task, on_agg_reply}
use zkm_prover.Stage.Snark.{get_snark_task, on_snark_reply}
use zkm_prover.Stage.Dispatch.{dispatch, is_success}
use zkm_prover.Database.{
  StageTask, TaskRow, Database, update_stage_task, update_stage_task_check_at, insert_prove_task,
}

pub data Task : Type 0 where
  split : SplitTask → Task
  prove : ProveTask → Task
  agg : AggTask → Task
  snark : SnarkTask → Task

-- serde_json of a task and of a context, and `String::from_utf8`.
pub record Codec : Type 0 where
  pub to_json : Task → String
  pub from_json : String → Option GenerateTask
  pub from_utf8 : Bytes → Option String

abbrev pub task_itype_split : ℕ
task_itype_split = 1

abbrev pub task_itype_final : ℕ
task_itype_final = 5

-- `Step as i32`
abbrev pub step_code : Step → ℕ
step_code Step.init = 0
step_code Step.split = 1
step_code Step.prove = 2
step_code Step.agg = 3
step_code Step.snark = 5
step_code Step.end = 6

-- `save_task!`: a task that has ended is recorded, and a failing database is only logged.
unfoldable pub save_task : String → String → ℕ → Trace → ℕ → String → Database → Database
save_task task_id proof_id state trace itype content db =
    let row : TaskRow = record {
      id = task_id;
      itype = itype;
      proof_id = proof_id;
      status = state;
      time_cost = duration trace;
      node_info = trace.node_info;
      content = some content;
      check_at = 0;
    } in
    if state == task_state_failed || state == task_state_success
    then elim (insert_prove_task db row) [ some db' ↦ db' | none ↦ db ]
    else db

abbrev pub one_task {ℓ} : {A : Type ℓ} → (A → Task) → Option A → List Task
one_task wrap none = []
one_task wrap (some a) = wrap a ∷ []

-- The calls that a round spawns, first half of the loop's body.
unfoldable pub give_prove_task : World → Stage → Stage × Option ProveTask
give_prove_task w s =
    if ltb (count_processing_prove_tasks s) s.generate_task.max_prover_num
    then get_prove_task w s
    else (s, none)

unfoldable pub give_agg_task : World → Stage → Result (Stage × Option AggTask)
give_agg_task w s =
    if s.is_tasks_gen_done && ltb (count_unfinished_prove_tasks s) s.generate_task.max_prover_num
    then get_agg_task w s
    else ok (s, none)

unfoldable pub give_at : Step → World → Stage → Result (Stage × List Task)
give_at Step.prove w s = do
  let (s₁, split_task) = get_split_task w s
  let (s₂, prove_task) = give_prove_task w s₁
  (s₃, agg_task) ← give_agg_task w s₂
  ok (s₃, one_task split split_task ++ one_task prove prove_task ++ one_task agg agg_task)
give_at Step.snark w s = let (s', task) = get_snark_task w s in ok (s', one_task snark task)
give_at _ w s = ok (s, [])

unfoldable pub give : World → Stage → Result (Stage × List Task)
unfolding give_at
give w s = give_at s.step w s

-- What `select!` brings: a reply, or nothing but the time.
unfoldable pub receive :
    Codec → World → Option Task → Stage → Database → Result (Stage × Database × World)
receive codec w none s db = ok (s, db, w)
receive codec w (some (split t)) s db =
    let (s', t') = on_split_reply w t s in
    ok (
      s',
      save_task t'.task_id t'.proof_id t'.state t'.trace task_itype_split (codec.to_json (split t'))
          db,
      w,
    )
receive codec w (some (prove t)) s db = ok ((on_prove_reply w t s).0, db, w)
receive codec w (some (agg t)) s db = do (s', t', w') ← on_agg_reply w t s; ok (s', db, w')
receive codec w (some (snark t)) s db = do
  (s', t', w') ← on_snark_reply w t s
  ok (
    s',
    save_task t'.task_id t'.proof_id t'.state t'.trace task_itype_final (codec.to_json (snark t'))
        db,
    w',
  )

-- What the loop keeps. `claimed_at` is the time that the worker believes the row to have.
pub record Work : Type 0 where
  pub id : String
  pub stage : Stage
  pub db : Database
  pub claimed_at : ℕ
  pub check_at : ℕ

-- The row is written every ten seconds, and at each new step.
unfoldable pub write_progress : ℕ → Step → Work → Work
write_progress now before work =
    let next = record work { check_at = now } in
    if ltb (work.check_at + 10) now || not (step_code before == step_code work.stage.step)
    then elim (update_stage_task_check_at work.db work.id work.claimed_at now
        (step_code work.stage.step)) [
          | none ↦ next
          | some updated ↦
              if updated.1 == 1
              then record next { db = updated.0; claimed_at = now }
              else record next { db = updated.0 }
        ]
    else work

pub data Round : Type 0 where
  done : Work → World → List Task → Round
  goes_on : Work → World → List Task → Round

-- The body of the loop.
unfoldable pub round : Backend → Codec → Env → World → Option Task → Work → Result Round
round backend codec env w event work = do
  (s₁, calls) ← give w work.stage
  (s₂, db, w₂) ← receive codec w event s₁ work.db
  let after : Work = record work { stage = s₂; db = db }
  (if is_success s₂ || s₂.is_error then ok (done after w₂ calls) else (do
    (s₃, w₃) ← dispatch backend env w₂ s₂
    ok (goes_on (write_progress w₃.now work.stage.step (record after { stage = s₃ })) w₃ calls)))
