-- ===== src/Worker/Finish.antt =====
-- How `run_stage_task` begins and ends: the row of a proof from its context to its result.
use zkm_prover.Base.{ℕ, Bool, true, false, Option, none, some, [], ◌==◌, if◌then◌else◌}
use zkm_prover.Platform.{
  Bytes, Result, ok, unwrap, ◌>>=◌, Env, World, read, draw, unwrap_none, expect_failed,
}
use zkm_prover.Tasks.{Step, GenerateTask, SplitTask, SingleNodeTask}
use zkm_prover.Stage.{Backend, Stage, new, default_split}
use zkm_prover.Stage.Snark.{get_single_node_task}
use zkm_prover.Stage.Dispatch.{dispatch}
use zkm_prover.Database.{StageTask, Database, update_stage_task, update_stage_task_check_at}
use zkm_prover.Worker.{Codec, Work, step_code}

-- `Status` of stage.proto, as a number of the table.
abbrev pub status_success : ℕ
status_success = 0

abbrev pub status_computing : ℕ
status_computing = 2

abbrev pub status_internal_error : ℕ
status_internal_error = 4

-- The status of a proof that failed at a step.
abbrev pub error_status : Step → ℕ
error_status Step.split = 5
error_status Step.prove = 6
error_status Step.agg = 7
error_status Step.snark = 8
error_status _ = status_internal_error

abbrev pub is_snark_step : Step → Bool
is_snark_step Step.snark = true
is_snark_step _ = false

-- What the context of a row leads to: nothing without one, an error row if it cannot be read, and
-- else the loop's state after the first `dispatch`. A single-node proof goes to one node as a whole,
-- unless its row says that it has been taken up before: then the worker only returns.
pub data Begun : Type 0 where
  nothing : Begun
  rejected : Database → Begun
  working : Work → World → Begun
  single_node : SingleNodeTask → SplitTask → Stage → World → Begun

abbrev or_same : Database → Option Database → Database
or_same db none = db
or_same db (some db') = db'

abbrev first_claim : Database → Option (Database × ℕ) → Database
first_claim db none = db
first_claim db (some updated) = updated.0

unfoldable pub begin_work :
    Backend → Env → World → StageTask → Database → GenerateTask → Result Begun
begin_work backend env w task db context = do
  (s, w') ← dispatch backend env w (new context)
  ok (
      working
        (record {
          id = task.id;
          stage = s;
          db =
              first_claim db
                (update_stage_task_check_at db task.id task.check_at w.now (step_code s.step));
          claimed_at = w.now;
          check_at = w'.now;
        })
        w')

-- The task for the node, and the split task that will tell of it.
unfoldable pub begin_single : Env → World → GenerateTask → Begun
begin_single env w context =
    let s = new context in
    let (t, w') = get_single_node_task env w s in
    single_node t (record default_split { task_id = env.uuid w'.drawn; proof_id = t.proof_id }) s
      (draw w')

unfoldable pub begin_task : Backend → Codec → Env → World → StageTask → Database → Result Begun
begin_task backend codec env w task db = elim task.context [
  | none ↦ ok nothing
  | some context ↦ elim (codec.from_json context) [
    | none ↦ ok (rejected (or_same db (update_stage_task db task.id status_internal_error "")))
    | some generate_task ↦
        if generate_task.single_node
        then ok (if task.step == 0 then begin_single env w generate_task else nothing)
        else begin_work backend env w task db generate_task
  ]
]

-- The bytes that a successful proof stores in its row.
unfoldable pub proof_result : World → Stage → Result Bytes
proof_result w s =
    if is_snark_step s.generate_task.target_step
    then unwrap (read w s.generate_task.snark_path) unwrap_none
    else ok []

-- After the loop. A successful proof's `check_at` is the time that it took.
unfoldable pub finish : Codec → World → ℕ → Work → Result Database
finish codec w task_duration work =
    if work.stage.is_error
    then unwrap (update_stage_task work.db work.id (error_status work.stage.step) "") unwrap_none
    else (do
      result ← proof_result w work.stage
      updated ←
          unwrap
            (update_stage_task_check_at work.db work.id work.claimed_at task_duration
              (step_code work.stage.step))
            unwrap_none
      text ← unwrap (codec.from_utf8 result) expect_failed
      unwrap (update_stage_task updated.0 work.id status_success text) unwrap_none)
