-- ===== src/Worker/Single/Ends.antt =====
-- How a single-node proof ends in the database.
use zkm_prover.Base.{
  ℕ, ◌≡◌, refl, ap, ◌∙◌, String, Bool, true, false, Option, none, some, [], any, str_eq, ◌==◌,
  if◌then◌else◌, arith, Bool-cases, inl, inr,
}
use zkm_prover.Platform.{Bytes, ok, World, write, written}
use zkm_prover.Tasks.{Step, SplitTask, SingleNodeTask, Trace, task_state_success, task_state_failed}
use zkm_prover.Stage.{Stage}
use zkm_prover.Stage.Agg.{is_agg_step}
use zkm_prover.Stage.Snark.{on_single_node_reply}
use zkm_prover.Database.{Database, get_stage_task, insert_prove_task}
use zkm_prover.Worker.{Codec, split, task_itype_split, step_code, save_task}
use zkm_prover.Worker.Finish.{status_success, status_internal_error, is_snark_step}
use zkm_prover.Worker.Status.{
  status_of, has_row, update_stage_task-status, update_stage_task_check_at-keeps,
}
use zkm_prover.Worker.Single.{Handled, handle, succeed, settle, end_single}

-- A saved task changes no row of a proof.
save_task-stage_tasks :
    (task_id proof_id : String) (state : ℕ) (trace : Trace) (itype : ℕ) (content : String)
    (db : Database)
    → ((save_task task_id proof_id state trace itype content db).stage_tasks ≡ db.stage_tasks)
      × ((save_task task_id proof_id state trace itype content db).is_up ≡ db.is_up)
unfolding save_task insert_prove_task
save_task-stage_tasks task_id proof_id state trace itype content db = ground arith

-- The status of a single-node proof: success only if a task came back with success.
abbrev pub single_status : Option SingleNodeTask → ℕ
single_status none = status_internal_error
single_status (some t) =
    if t.state == task_state_success then status_success else status_internal_error

abbrev is_some {ℓ} : {A : Type ℓ} → Option A → Bool
is_some none = false
is_some (some a) = true

-- What is kept as the result of the proof: the output of a task that comes back, for a snark.
abbrev pub single_result : Step → Option SingleNodeTask → Bytes
single_result target none = []
single_result target (some t) = if is_snark_step target then t.output else []

module _ (codec : Codec) (id : String) (check_at task_duration : ℕ) where
  succeed-status :
      (s : Stage) (result : Bytes) (text : String) (db : Database)
      → codec.from_utf8 result ≡ some text
      → db.is_up ≡ true
      → has_row id db ≡ true
      → (db' : Database) × (succeed codec id check_at task_duration s result db ≡ ok db')
        × (status_of (get_stage_task db' id) ≡ some status_success)
  unfolding succeed
  succeed-status s result text db utf8 up there =
      let (db₁, rows, e₁, up₁, there₁) =
        update_stage_task_check_at-keeps db id check_at task_duration (step_code s.step) up there in
      let (db₂, e₂, status) = update_stage_task-status db₁ id status_success text up₁ there₁ in
      (db₂, rw (e₁, utf8, e₂), status)

  settle-status :
      (is_error : Bool) (s : Stage) (result : Bytes) (text : String) (db : Database)
      → codec.from_utf8 result ≡ some text
      → db.is_up ≡ true
      → has_row id db ≡ true
      → (db' : Database) × (settle is_error codec id check_at task_duration s result db ≡ ok db')
        × (status_of (get_stage_task db' id)
            ≡ some (if is_error then status_internal_error else status_success))
  unfolding settle
  settle-status true s result text db utf8 up there =
      let (db', e, status) = update_stage_task-status db id status_internal_error "" up there in
      (db', rw e, status)
  settle-status false s result text db utf8 up there = succeed-status s result text db utf8 up there

  write_agg-ends :
      (b : Bool) (w : World) (path : String) (output : Bytes)
      → w.writable path ≡ true
      → (w' : World) × ((if b then write w path output else ok w) ≡ ok w')
  unfolding write
  write_agg-ends true w path output can = (written w path output, rw can)
  write_agg-ends false w path output can = (w, refl)

  on_single_node_reply-ends :
      (w : World) (s : Stage) (t : SingleNodeTask)
      → s.is_error ≡ false
      → w.writable s.generate_task.snark_path ≡ true
      → (s' : Stage) × (w' : World) × (on_single_node_reply w t s ≡ ok (s', w'))
        × ((if s'.is_error then status_internal_error else status_success) ≡ single_status (some t))
        × (s'.generate_task ≡ s.generate_task)
  unfolding on_single_node_reply
  on_single_node_reply-ends w s t fresh can = elim (Bool-cases (t.state == task_state_success)) [
    | inl done ↦
        let (w', e) =
          write_agg-ends (is_agg_step s.generate_task.target_step) w s.generate_task.snark_path
            t.output can in
        (record s { step = Step.end }, w', rw (done, e), ground (arith, done, fresh), refl)
    | inr lost ↦ (record s { is_error = true }, w, rw lost, ground (arith, lost), refl)
  ]

  handle-ends :
      (w : World) (s : Stage) (split_task : SplitTask) (response : Option SingleNodeTask)
      → s.is_error ≡ false
      → w.writable s.generate_task.snark_path ≡ true
      → (h : Handled) × (w' : World) × (handle w s split_task response ≡ ok (h, w'))
        × ((if h.stage.is_error then status_internal_error else status_success)
            ≡ single_status response)
        × (h.result ≡ single_result s.generate_task.target_step response)
        × (h.split_task.state
            ≡ (if is_some response then task_state_success else task_state_failed))
        × (h.split_task.task_id ≡ split_task.task_id)
  unfolding handle
  handle-ends w s split_task none fresh can = (_, _, refl, refl, refl, refl, refl)
  handle-ends w s split_task (some t) fresh can =
      let (s', w', e, status, same) = on_single_node_reply-ends w s t fresh can in
      let h : Handled = record {
        stage = s';
        split_task = record split_task { total_steps = t.total_cycles; state = task_state_success };
        result = if is_snark_step s'.generate_task.target_step then t.output else [];
      } in
      (
        h,
        w',
        rw e,
        status,
        ap (λ g. if is_snark_step g.target_step then t.output else []) same,
        refl,
        refl,
      )

  -- With the database up, the row there, a stage that is not marked as failed, a file to write to,
  -- and a result that is text, the end of a single-node proof does not panic, and the row says
  -- success if a task came back with success, and an internal error otherwise.
  pub end_single-status :
      (w : World) (s : Stage) (split_task : SplitTask) (response : Option SingleNodeTask)
      (text : String) (db : Database)
      → codec.from_utf8 (single_result s.generate_task.target_step response) ≡ some text
      → s.is_error ≡ false
      → w.writable s.generate_task.snark_path ≡ true
      → db.is_up ≡ true
      → has_row id db ≡ true
      → (db' : Database) × (w' : World) × (end_single codec w id check_at task_duration s split_task
            response db
          ≡ ok (db', w'))
        × (status_of (get_stage_task db' id) ≡ some (single_status response))
  unfolding end_single
  end_single-status w s split_task response text db utf8 fresh can up there =
      let (h, w', e, status, kept, state, named) = handle-ends w s split_task response fresh can in
      let t = h.split_task in
      let saved =
        save_task t.task_id t.proof_id t.state t.trace task_itype_split (codec.to_json (split t))
          db in
      let (rows, up_after) =
        save_task-stage_tasks t.task_id t.proof_id t.state t.trace task_itype_split
          (codec.to_json (split t)) db in
      let (db', e', ended) =
        settle-status h.stage.is_error h.stage h.result text saved (ap codec.from_utf8 kept ∙ utf8)
          (up_after ∙ up) (ap (any (λ row. str_eq row.id id)) rows ∙ there) in
      (db', w', rw (e, e'), ended ∙ ap some status)
