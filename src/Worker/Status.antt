-- ===== src/Worker/Status.antt =====
-- The status that a proof's row has in the end.
use zkm_prover.Base.{
  count_if, ℕ, ◌≡◌, ◌≢◌, refl, ◌∙◌, String, Bool, true, Option, none, some, List, [], ◌∷◌, map,
  str_eq, find, if◌then◌else◌, arith, Bool-cases, inl, inr, any,
}
use zkm_prover.Platform.{Bytes, ok, World}
use zkm_prover.Tasks.{Step}
use zkm_prover.Stage.{Stage, new}
use zkm_prover.Database.{
  StageTask, Database, is_current, update_stage_task, update_stage_task_check_at, get_stage_task,
}
use zkm_prover.Worker.{Codec, Work, step_code}
use zkm_prover.Worker.Finish.{status_success, status_computing, error_status, proof_result, finish}

abbrev pub status_of : Option StageTask → Option ℕ
status_of none = none
status_of (some t) = some t.status

abbrev updated_row : String → ℕ → String → StageTask → StageTask
updated_row id status result t =
    if str_eq t.id id then record t { status = status; result = some result } else t

find-updated_row :
    (id : String) (status : ℕ) (result : String) (ts : List StageTask)
    → any (λ t. str_eq t.id id) ts ≡ true
    → status_of (find (λ t. str_eq t.id id) (map (updated_row id status result) ts)) ≡ some status
find-updated_row id status result [] h = cc
find-updated_row id status result (t ∷ ts) h = ground (arith, find-updated_row id status result ts)

claimed-any :
    (id : String) (set : StageTask → StageTask) (ts : List StageTask)
    → ((t : StageTask) → (set t).id ≡ t.id)
    → any (λ t. str_eq t.id id) (map set ts) ≡ any (λ t. str_eq t.id id) ts
claimed-any id set [] same = refl
claimed-any id set (t ∷ ts) same = ground (arith, same t, claimed-any id set ts same)

abbrev pub has_row : String → Database → Bool
has_row id db = any (λ t. str_eq t.id id) db.stage_tasks

pub update_stage_task-status :
    (db : Database) (id : String) (status : ℕ) (result : String)
    → db.is_up ≡ true
    → has_row id db ≡ true
    → (db' : Database) × (update_stage_task db id status result ≡ some db')
      × (status_of (get_stage_task db' id) ≡ some status)
unfolding update_stage_task get_stage_task
update_stage_task-status db id status result up there =
    let found = find-updated_row id status result db.stage_tasks there in
    (
      record db { stage_tasks = map (updated_row id status result) db.stage_tasks },
      ground arith,
      ground (arith, found),
    )

pub update_stage_task_check_at-keeps :
    (db : Database) (id : String) (old new step : ℕ)
    → db.is_up ≡ true
    → has_row id db ≡ true
    → (db' : Database) × (rows : ℕ) × (update_stage_task_check_at db id old new step
        ≡ some (db', rows))
      × (db'.is_up ≡ true)
      × (has_row id db' ≡ true)
unfolding update_stage_task_check_at
update_stage_task_check_at-keeps db id old new step up there =
    let set : StageTask → StageTask =
      λ t. if is_current id old t then record t { check_at = new; step = step } else t in
    (
      record db { stage_tasks = map set db.stage_tasks },
      count_if (is_current id old) db.stage_tasks,
      ground arith,
      up,
      claimed-any id set db.stage_tasks (λ t. ground arith) ∙ there,
    )

-- How a proof ended.
abbrev pub ended_status : Stage → ℕ
ended_status s = if s.is_error then error_status s.step else status_success

error_status-computing : (step : Step) → error_status step ≢ status_computing
error_status-computing Step.init = λ e. omega arith
error_status-computing Step.split = λ e. omega arith
error_status-computing Step.prove = λ e. omega arith
error_status-computing Step.agg = λ e. omega arith
error_status-computing Step.snark = λ e. omega arith
error_status-computing Step.end = λ e. omega arith

ended_status-computing : (s : Stage) → ended_status s ≢ status_computing
ended_status-computing s = elim (Bool-cases s.is_error) [
  | inl failed ↦ rw failed (error_status-computing s.step)
  | inr ended ↦ rw ended λ e. omega arith
]

-- With the database up, the proof's row there, and a result that can be read and is text, the
-- worker ends without a panic, and the row says how the proof ended: with the error of its step,
-- or with success. It is no longer one of those that are loaded as incomplete.
pub finish-status :
    (codec : Codec) (w : World) (task_duration : ℕ) (work : Work) (bytes : Bytes) (text : String)
    → work.db.is_up ≡ true
    → has_row work.id work.db ≡ true
    → proof_result w work.stage ≡ ok bytes
    → codec.from_utf8 bytes ≡ some text
    → (db : Database) × (finish codec w task_duration work ≡ ok db)
      × (status_of (get_stage_task db work.id) ≡ some (ended_status work.stage))
      × (ended_status work.stage ≢ status_computing)
unfolding finish
finish-status codec w task_duration work bytes text up there read_ok utf8 =
    elim (Bool-cases work.stage.is_error) [
      | inl failed ↦
          let (db, e, status) =
            update_stage_task-status work.db work.id (error_status work.stage.step) "" up there in
          (
            db,
            ground (arith, failed, e),
            ground (arith, failed, status),
            ended_status-computing work.stage,
          )
      | inr ended ↦
          let (db₁, rows, e₁, up₁, there₁) =
            update_stage_task_check_at-keeps work.db work.id work.claimed_at task_duration
              (step_code work.stage.step) up there in
          let (db, e, status) =
            update_stage_task-status db₁ work.id status_success text up₁ there₁ in
          (
            db,
            ground (arith, ended, read_ok, e₁, utf8, e),
            ground (arith, ended, status),
            ended_status-computing work.stage,
          )
    ]
