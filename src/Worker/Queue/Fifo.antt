-- ===== src/Worker/Queue/Fifo.antt =====
-- The queue loses no proof and keeps the order; no more workers run than there are permits.
use zkm_prover.Base.{
  ℕ, zero, suc, ◌+◌, ◌≡◌, refl, sym, ap, ap₂, ◌∙◌, ◌≤◌, Bool, true, false, Option, none, some, List,
  [], ◌∷◌, ◌++◌, append_assoc, append-nil, ltb, ◌==◌, ◌&&◌, length, count_if, take, keep, arith,
  length-append, count_if-append,
}
use zkm_prover.Database.{StageTask, Database, get_incomplete_stage_tasks}
use zkm_prover.Worker.Finish.{status_computing}
use zkm_prover.Worker.Queue.{
  capacity, i32_max, TaskManager, new, load, load_incomplete_tasks_from_db, Event, Step, sends,
  receives, starts, ends, Reach, here, next, sent_in, started_in, ended_in,
}

abbrev pub in_hand : Option StageTask → List StageTask
in_hand none = []
in_hand (some t) = t ∷ []

-- The order: what was sent has been started, is held or waits. The workers: what was started has
-- ended or runs, every kind of task counted. The bounds of the channel and of the permits.
pub record IsOrderly (max : ℕ) (es : List Event) (m : TaskManager) : Type 0 where
  pub order : sent_in es ≡ started_in es ++ (in_hand m.held ++ m.waiting)
  pub workers :
      (p : StageTask → Bool)
      → count_if p (started_in es) ≡ count_if p (ended_in es) + count_if p m.running
  pub permits : m.max_concurrent_tasks ≡ max
  pub enough : length m.running ≤ max
  pub fits : length m.waiting ≤ capacity

Step-IsOrderly :
    {max : ℕ} {es : List Event} {m m' : TaskManager} {e : Event}
    → Step m e m'
    → IsOrderly max es m
    → IsOrderly max (e ∷ es) m'
Step-IsOrderly {es = es} (sends m t room) h = record {
  order = ap (λ ts. ts ++ t ∷ []) h.order ∙ simp append_assoc;
  workers = h.workers;
  permits = h.permits;
  enough = h.enough;
  fits = omega (arith, length-append m.waiting (t ∷ []));
}
Step-IsOrderly {es = es} (receives m t ts free first) h = record {
  order = h.order ∙ ap₂ (λ held waiting. started_in es ++ (in_hand held ++ waiting)) free first;
  workers = h.workers;
  permits = h.permits;
  enough = h.enough;
  fits = omega (arith, ap length first, h.fits);
}
Step-IsOrderly {es = es} (starts m t held room) h = record {
  order =
      h.order
      ∙ ap (λ o. started_in es ++ (in_hand o ++ m.waiting)) held
      ∙ sym (append_assoc (started_in es) (t ∷ []) m.waiting);
  workers = λ p. omega (
    arith,
    h.workers p,
    count_if-append p (started_in es) (t ∷ []),
    count_if-append p m.running (t ∷ []),
  );
  permits = h.permits;
  enough = omega (arith, length-append m.running (t ∷ []), h.permits);
  fits = h.fits;
}
Step-IsOrderly {es = es} (ends m before t behind runs) h = record {
  order = h.order;
  workers = λ p. omega (
    arith,
    h.workers p,
    ap (count_if p) runs,
    count_if-append p before (t ∷ behind),
    count_if-append p before behind,
    count_if-append p (ended_in es) (t ∷ []),
  );
  permits = h.permits;
  enough = omega (
    arith,
    ap length runs,
    length-append before (t ∷ behind),
    length-append before behind,
    h.enough,
  );
  fits = h.fits;
}

new-IsOrderly :
    (max_concurrent_tasks : Option ℕ)
    → IsOrderly (new max_concurrent_tasks).max_concurrent_tasks [] (new max_concurrent_tasks)
unfolding new
new-IsOrderly max_concurrent_tasks = record {
  order = refl;
  workers = λ p. refl;
  permits = refl;
  enough = omega arith;
  fits = omega arith;
}

-- However requests, the loop of the task manager and its workers interleave, the tasks start in
-- the order in which they were sent, none is lost or doubled, every task that was started has
-- ended or runs, no more run than there are permits, and the channel holds no more than its
-- capacity.
pub Reach-IsOrderly :
    (max_concurrent_tasks : Option ℕ) {es : List Event} {m : TaskManager}
    → Reach (new max_concurrent_tasks) es m
    → IsOrderly (new max_concurrent_tasks).max_concurrent_tasks es m
Reach-IsOrderly max_concurrent_tasks here = new-IsOrderly max_concurrent_tasks
Reach-IsOrderly max_concurrent_tasks (next r step) =
    Step-IsOrderly step (Reach-IsOrderly max_concurrent_tasks r)

load-take :
    (n : ℕ) (tasks queue : List StageTask)
    → length queue + n ≡ capacity
    → load tasks queue ≡ queue ++ take n tasks
unfolding load
load-take zero [] queue h = sym (append-nil queue)
load-take (suc n) [] queue h = sym (append-nil queue)
load-take zero (t ∷ tasks) queue h =
    let full : ltb (length queue) capacity ≡ false = ground arith in
    rw full (sym (append-nil queue))
load-take (suc n) (t ∷ tasks) queue h =
    let room : ltb (length queue) capacity ≡ true = ground arith in
    rw room (
      load-take n tasks (queue ++ t ∷ []) (omega (arith, length-append queue (t ∷ [])))
      ∙ append_assoc queue (t ∷ []) (take n tasks))

-- With the database up, a start puts the first tasks into the empty queue that are computing and
-- were last written before now, as many as the channel holds, and no more.
pub load_incomplete_tasks_from_db-take :
    (db : Database) (now : ℕ)
    → db.is_up ≡ true
    → load_incomplete_tasks_from_db db now []
      ≡ some (
          take capacity (
            take i32_max
              (keep (λ t. t.status == status_computing && ltb t.check_at now) db.stage_tasks)))
unfolding load_incomplete_tasks_from_db get_incomplete_stage_tasks
load_incomplete_tasks_from_db-take db now up = rw up (ap some (load-take capacity _ [] refl))
