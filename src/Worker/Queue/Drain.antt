-- ===== src/Worker/Queue/Drain.antt =====
-- The queue runs empty: how many steps are left, and that one is always open.
use zkm_prover.Base.{
  ℕ, suc, ◌+◌, ◌*◌, ◌≡◌, refl, ap, ◌∙◌, ◌<◌, Option, none, some, List, [], ◌∷◌, length, arith,
  length-append,
}
use zkm_prover.Database.{StageTask}
use zkm_prover.Worker.Queue.{
  TaskManager, Event, sent, started, ended, received, Step, sends, receives, starts, ends, Reach,
  here, next, sent_in,
}
use zkm_prover.Worker.Queue.Fifo.{in_hand}

-- A state in which something can happen next besides a request.
abbrev pub Moves : TaskManager → Type 0
Moves m = (e : Event) × (m' : TaskManager) × Step m e m' × (sent_in (e ∷ []) ≡ [])

move_on :
    (m : TaskManager) (held : Option StageTask) (waiting running : List StageTask)
    → m.held ≡ held
    → m.waiting ≡ waiting
    → m.running ≡ running
    → 0 < m.max_concurrent_tasks
    → (0 < length (in_hand held) + length waiting + length running)
    → Moves m
move_on m held waiting (t ∷ running) h w r permits busy = (ended t, _, ends m [] t running r, refl)
move_on m (some t) waiting [] h w r permits busy =
    (started t, _, starts m t h (omega (arith, ap length r)), refl)
move_on m none (t ∷ waiting) [] h w r permits busy = (received, _, receives m t waiting h w, refl)
move_on m none [] [] h w r permits busy = absurd (omega arith)

-- The steps that the tasks at hand still take: to be received, started and ended.
pub rank : TaskManager → ℕ
rank m = 3 * length m.waiting + 2 * length (in_hand m.held) + length m.running

Step-rank :
    {m m' : TaskManager} {e : Event} → Step m e m' → sent_in (e ∷ []) ≡ [] → suc (rank m') ≡ rank m
unfolding rank
Step-rank (sends m t room) h = cc
Step-rank (receives m t ts free first) h =
    omega (arith, ap (λ o. length (in_hand o)) free, ap length first)
Step-rank (starts m t held room) h =
    omega (arith, ap (λ o. length (in_hand o)) held, length-append m.running (t ∷ []))
Step-rank (ends m before t behind runs) h =
    omega (arith, ap length runs, length-append before (t ∷ behind), length-append before behind)

Step-permits :
    {m m' : TaskManager} {e : Event}
    → Step m e m'
    → m'.max_concurrent_tasks ≡ m.max_concurrent_tasks
Step-permits (sends m t room) = refl
Step-permits (receives m t ts free first) = refl
Step-permits (starts m t held room) = refl
Step-permits (ends m before t behind runs) = refl

Reach-permits :
    {m m' : TaskManager} {es : List Event}
    → Reach m es m'
    → m'.max_concurrent_tasks ≡ m.max_concurrent_tasks
Reach-permits here = refl
Reach-permits (next r step) = Step-permits step ∙ Reach-permits r

-- Without a request in the history there is none in its parts.
no_request :
    (e : Event) (es : List Event)
    → sent_in (e ∷ es) ≡ []
    → (sent_in (e ∷ []) ≡ []) × (sent_in es ≡ [])
no_request (sent t) es h = absurd (omega (arith, ap length h, length-append (sent_in es) (t ∷ [])))
no_request (started t) es h = (refl, h)
no_request (ended t) es h = (refl, h)
no_request received es h = (refl, h)

Reach-rank :
    {m m' : TaskManager} {es : List Event}
    → Reach m es m'
    → sent_in es ≡ []
    → rank m' + length es ≡ rank m
Reach-rank here h = omega arith
Reach-rank (next {es} {m₁} {e} r step) h =
    let (now, before) = no_request e es h in omega (arith, Step-rank step now, Reach-rank r before)

-- Without further requests every step of the task manager and its workers brings the queue one
-- nearer to its end, and with a permit at least there is such a step until nothing waits, is held
-- or runs.
pub Reach-drains :
    {m m' : TaskManager} {es : List Event}
    → 0 < m.max_concurrent_tasks
    → Reach m es m'
    → sent_in es ≡ []
    → (rank m' + length es ≡ rank m) × (0 < rank m' → Moves m')
unfolding rank
Reach-drains {m' = m'} permits r h = (
  Reach-rank r h,
  λ busy.
      move_on m' m'.held m'.waiting m'.running refl refl refl (omega (arith, Reach-permits r))
        (omega arith),
)
