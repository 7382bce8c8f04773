-- ===== src/Worker/Row.antt =====
-- The row that a proof leaves when it has ended well.
use zkm_prover.Base.{ℕ, ◌≡◌, String, false, some}
use zkm_prover.Platform.{
  Bytes, ok, unwrap, >>=-eq-ok, unwrap-eq-ok, World, unwrap_none, expect_failed,
}
use zkm_prover.Database.{
  StageTask, Database, get_stage_task, update_stage_task, update_stage_task_check_at,
}
use zkm_prover.Database.Rows.{get_stage_task-update, get_stage_task-update_check_at}
use zkm_prover.Worker.{Codec, Work, step_code}
use zkm_prover.Worker.Finish.{status_success, proof_result, finish}

-- The row of a proof that has ended well, with the text of its result.
pub finish-row :
    (codec : Codec) (w : World) (task_duration : ℕ) (work : Work) (db : Database) (t : StageTask)
    → work.stage.is_error ≡ false
    → finish codec w task_duration work ≡ ok db
    → get_stage_task work.db work.id ≡ some t
    → (bytes : Bytes) × (text : String) × (t' : StageTask) × (proof_result w work.stage ≡ ok bytes)
      × (codec.from_utf8 bytes ≡ some text)
      × (get_stage_task db work.id
          ≡ some (record t' { status = status_success; result = some text }))
      × (t'.context ≡ t.context)
unfolding finish proof_result
finish-row codec w task_duration work db t well e found =
    let (bytes, read_ok, e₁) = >>=-eq-ok (proof_result w work.stage) _ (rw well at e) in
    let (updated, moved, e₂) =
      >>=-eq-ok
        (unwrap
          (update_stage_task_check_at work.db work.id work.claimed_at task_duration
            (step_code work.stage.step))
          unwrap_none)
        _ e₁ in
    let (text, utf8, e₃) = >>=-eq-ok (unwrap (codec.from_utf8 bytes) expect_failed) _ e₂ in
    let (t', found', same, kept, moves) =
      get_stage_task-update_check_at work.db updated.0 work.id work.claimed_at task_duration
        (step_code work.stage.step) updated.1 t (unwrap-eq-ok _ unwrap_none moved) found in
    (
      bytes,
      text,
      t',
      read_ok,
      unwrap-eq-ok (codec.from_utf8 bytes) expect_failed utf8,
      get_stage_task-update updated.0 db work.id text status_success t'
          (unwrap-eq-ok (update_stage_task updated.0 work.id status_success text) unwrap_none e₃)
          found',
      same,
    )
