-- ===== src/Worker/Queue.antt =====
-- `TaskManager` of proof-service/src/stage/stage_worker.rs: the queue of proofs and the workers that
-- run at once. The channel, the semaphore and the spawned workers are a step relation.
pub mod Fifo
pub mod Drain
use zkm_prover.Base.{
  ℕ, suc, ◌+◌, ◌-◌, ◌≡◌, ◌<◌, ◌^◌, Option, none, some, List, [], ◌∷◌, ◌++◌, ltb, length,
  if◌then◌else◌,
}
use zkm_prover.Database.{StageTask, Database, get_incomplete_stage_tasks}
use zkm_prover.Worker.Finish.{status_computing}

-- How many tasks `mpsc::channel` holds.
abbrev pub capacity : ℕ
capacity = 256

abbrev or_one : Option ℕ → ℕ
or_one none = 1
or_one (some n) = n

-- `running` holds a permit each; `held` is the task that waits for one.
pub record TaskManager : Type 0 where
  pub max_concurrent_tasks : ℕ
  pub waiting : List StageTask
  pub held : Option StageTask
  pub running : List StageTask

unfoldable pub new : Option ℕ → TaskManager
new max_concurrent_tasks = record {
  max_concurrent_tasks = or_one max_concurrent_tasks;
  waiting = [];
  held = none;
  running = [];
}

-- `try_send` in a loop, which ends where the channel is full.
unfoldable pub load : List StageTask → List StageTask → List StageTask
load [] queue = queue
load (task ∷ tasks) queue =
    let rest = load tasks (queue ++ task ∷ []) in
    if ltb (length queue) capacity then rest else queue

abbrev pub i32_max : ℕ
i32_max = 2 ^ 31 - 1

-- The queue after a start; `none` is an error of the database. The manager has not started, so
-- nothing leaves the channel, and the channel is open.
unfoldable pub load_incomplete_tasks_from_db :
    Database → ℕ → List StageTask → Option (List StageTask)
unfolding load
load_incomplete_tasks_from_db db now queue =
    elim (get_incomplete_stage_tasks db status_computing now i32_max) [
      | none ↦ none
      | some tasks ↦ some (load tasks queue)
    ]

-- What happens: a request sends a task, `process_tasks` takes the next one and starts it with a
-- permit, a worker ends and gives its permit back, whether `run_stage_task` returns or panics.
pub data Event : Type 0 where
  sent started ended : StageTask → Event
  received : Event

pub data Step : TaskManager → Event → TaskManager → Type 0 where
  sends :
      (m : TaskManager) (t : StageTask)
      → length m.waiting < capacity
      → Step m (sent t) (record m { waiting = m.waiting ++ t ∷ [] })
  receives :
      (m : TaskManager) (t : StageTask) (ts : List StageTask)
      → m.held ≡ none
      → m.waiting ≡ t ∷ ts
      → Step m received (record m { held = some t; waiting = ts })
  starts :
      (m : TaskManager) (t : StageTask)
      → m.held ≡ some t
      → length m.running < m.max_concurrent_tasks
      → Step m (started t) (record m { held = none; running = m.running ++ t ∷ [] })
  ends :
      (m : TaskManager) (before : List StageTask) (t : StageTask) (behind : List StageTask)
      → m.running ≡ before ++ t ∷ behind
      → Step m (ended t) (record m { running = before ++ behind })

-- A history, the newest event first.
pub data Reach (m : TaskManager) : List Event → TaskManager → Type 0 where
  here : Reach m [] m
  next :
      {es : List Event} {m₁ : TaskManager} {e : Event} {m₂ : TaskManager}
      → Reach m es m₁
      → Step m₁ e m₂
      → Reach m (e ∷ es) m₂

-- The tasks of a history that were sent, started and ended, in the order in which they were.
abbrev pub sent_in : List Event → List StageTask
sent_in [] = []
sent_in (sent t ∷ es) = sent_in es ++ t ∷ []
sent_in (started t ∷ es) = sent_in es
sent_in (ended t ∷ es) = sent_in es
sent_in (received ∷ es) = sent_in es

abbrev pub started_in : List Event → List StageTask
started_in [] = []
started_in (sent t ∷ es) = started_in es
started_in (started t ∷ es) = started_in es ++ t ∷ []
started_in (ended t ∷ es) = started_in es
started_in (received ∷ es) = started_in es

abbrev pub ended_in : List Event → List StageTask
ended_in [] = []
ended_in (sent t ∷ es) = ended_in es
ended_in (started t ∷ es) = ended_in es
ended_in (ended t ∷ es) = ended_in es ++ t ∷ []
ended_in (received ∷ es) = ended_in es
