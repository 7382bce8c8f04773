-- ===== src/Worker/Single.antt =====
-- The single-node branch of `run_stage_task`, after the node's answer.
pub mod Ends
pub mod Lost
use zkm_prover.Base.{ℕ, String, Bool, true, false, Option, none, some, [], if◌then◌else◌}
use zkm_prover.Platform.{Bytes, Result, ok, unwrap, ◌>>=◌, World, unwrap_none, expect_failed}
use zkm_prover.Tasks.{SplitTask, SingleNodeTask, task_state_success, task_state_failed}
use zkm_prover.Stage.{Stage}
use zkm_prover.Stage.Snark.{on_single_node_reply}
use zkm_prover.Database.{Database, update_stage_task, update_stage_task_check_at}
use zkm_prover.Worker.{Codec, split, task_itype_split, step_code, save_task}
use zkm_prover.Worker.Finish.{status_success, status_internal_error, is_snark_step}

-- What the branch has once the answer is handled: the stage, the split task and the result.
pub record Handled : Type 0 where
  pub stage : Stage
  pub split_task : SplitTask
  pub result : Bytes

-- `none` is an error of the call. Any task that comes back counts as split, whatever its state.
unfoldable pub handle : World → Stage → SplitTask → Option SingleNodeTask → Result (Handled × World)
handle w s split_task none = ok (
  record {
    stage = record s { is_error = true };
    split_task = record split_task { state = task_state_failed };
    result = [];
  },
  w,
)
handle w s split_task (some t) = do
  (s', w') ← on_single_node_reply w t s
  ok (
    record {
      stage = s';
      split_task = record split_task { total_steps = t.total_cycles; state = task_state_success };
      result = if is_snark_step s'.generate_task.target_step then t.output else [];
    },
    w',
  )

-- The row of a proof that has succeeded; its `check_at` is the time that it took.
unfoldable pub succeed : Codec → String → ℕ → ℕ → Stage → Bytes → Database → Result Database
succeed codec id check_at task_duration s result db = do
  updated ←
      unwrap (update_stage_task_check_at db id check_at task_duration (step_code s.step))
        unwrap_none
  text ← unwrap (codec.from_utf8 result) expect_failed
  unwrap (update_stage_task updated.0 id status_success text) unwrap_none

-- By `stage.is_error()`.
unfoldable pub settle : Bool → Codec → String → ℕ → ℕ → Stage → Bytes → Database → Result Database
settle true codec id check_at task_duration s result db =
    unwrap (update_stage_task db id status_internal_error "") unwrap_none
settle false codec id check_at task_duration s result db =
    succeed codec id check_at task_duration s result db

-- The split task is saved, and then the row of the proof is written.
unfoldable pub end_single :
    Codec
    → World
    → String
    → ℕ
    → ℕ
    → Stage
    → SplitTask
    → Option SingleNodeTask
    → Database
    → Result (Database × World)
unfolding save_task
end_single codec w id check_at task_duration s split_task response db = do
  (h, w') ← handle w s split_task response
  let t = h.split_task
  let saved =
      save_task t.task_id t.proof_id t.state t.trace task_itype_split (codec.to_json (split t)) db
  db' ← settle h.stage.is_error codec id check_at task_duration h.stage h.result saved
  ok (db', w')
