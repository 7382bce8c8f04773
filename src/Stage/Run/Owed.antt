-- ===== src/Stage/Run/Owed.antt =====
-- A task that is at a node is being processed in the stage: counted by ids.
use zkm_prover.Base.{
  ℕ, ◌+◌, ◌≤◌, ◌≡◌, refl, ap, String, Bool, true, ◌&&◌, ◌==◌, Option, none, some, List, [], ◌∷◌,
  ◌++◌, str_eq, eq_iff, if◌then◌else◌, count_if, any, arith,
}
use zkm_prover.Platform.{World}
use zkm_prover.Tasks.{ProveTask, AggTask, task_state_processing}
use zkm_prover.Tasks.Progress.{on_prove_task, on_task}
use zkm_prover.Tasks.Agg.Clear.{clear_child_task-keeps}
use zkm_prover.Stage.Prove.{take_prove, answer_prove, clear_children}
use zkm_prover.Stage.Prove.Replies.{meets}
use zkm_prover.Stage.Agg.{take_agg, answer_agg}
use zkm_prover.Stage.Waiting.AggAnswers.{meets_agg}

-- How often an id stands in a list, and how many tasks of that id are being processed.
abbrev pub owes : String → List String → ℕ
owes id = count_if λ other. str_eq other id

abbrev pub proves_at : String → List ProveTask → ℕ
proves_at id = count_if λ t. str_eq t.task_id id && t.state == task_state_processing

abbrev pub aggs_at : String → List AggTask → ℕ
aggs_at id = count_if λ t. str_eq t.task_id id && t.state == task_state_processing

abbrev pub one_if : Bool → ℕ
one_if b = if b then 1 else 0

abbrev pub named_prove : String → Option ProveTask → ℕ
named_prove id none = 0
named_prove id (some t) = one_if (str_eq t.task_id id)

abbrev pub named_agg : String → Option AggTask → ℕ
named_agg id none = 0
named_agg id (some t) = one_if (str_eq t.task_id id)

pub take_prove-proves_at :
    (w : World) (id : String) (ts : List ProveTask)
    → proves_at id (take_prove w ts).0 ≡ proves_at id ts + named_prove id (take_prove w ts).1
unfolding take_prove
take_prove-proves_at w id [] = refl
take_prove-proves_at w id (t ∷ ts) = ground (arith, take_prove-proves_at w id ts)

pub take_agg-aggs_at :
    (w : World) (id : String) (ts : List AggTask)
    → aggs_at id (take_agg w ts).0 ≡ aggs_at id ts + named_agg id (take_agg w ts).1
unfolding take_agg
take_agg-aggs_at w id [] = refl
take_agg-aggs_at w id (t ∷ ts) = ground (arith, take_agg-aggs_at w id ts)

-- A reply ends the work on its id once at most.
pub answer_prove-proves_at :
    (now : ℕ) (src : ProveTask) (id : String) (ts : List ProveTask)
    → proves_at id ts ≤ proves_at id (answer_prove now src ts).1 + one_if (str_eq src.task_id id)
unfolding answer_prove on_prove_task
answer_prove-proves_at now src id [] = omega arith
answer_prove-proves_at now src id (t ∷ ts) =
    ground (arith, eq_iff t.task_id src.task_id, answer_prove-proves_at now src id ts)

pub answer_agg-aggs_at :
    (now : ℕ) (src : AggTask) (id : String) (ts : List AggTask)
    → aggs_at id ts ≤ aggs_at id (answer_agg now src ts).1 + one_if (str_eq src.task_id id)
unfolding answer_agg on_task
answer_agg-aggs_at now src id [] = omega arith
answer_agg-aggs_at now src id (t ∷ ts) =
    ground (arith, eq_iff t.task_id src.task_id, answer_agg-aggs_at now src id ts)

pub clear_children-aggs_at :
    (id other : String) (ts : List AggTask)
    → aggs_at other (clear_children id ts) ≡ aggs_at other ts
unfolding clear_children
clear_children-aggs_at id other [] = refl
clear_children-aggs_at id other (t ∷ ts) =
    ground (arith, clear_child_task-keeps id t, clear_children-aggs_at id other ts)

-- Whoever has a task at a node is met by its reply.
pub owed_prove-met :
    (src : ProveTask) (ts : List ProveTask)
    → 1 ≤ proves_at src.task_id ts
    → any (meets src) ts ≡ true
owed_prove-met src [] h = absurd (omega arith)
owed_prove-met src (t ∷ ts) h = ground (arith, owed_prove-met src ts)

pub owed_agg-met :
    (src : AggTask) (ts : List AggTask) → 1 ≤ aggs_at src.task_id ts → any (meets_agg src) ts ≡ true
owed_agg-met src [] h = absurd (omega arith)
owed_agg-met src (t ∷ ts) h = ground (arith, owed_agg-met src ts)

pub owes-removed :
    (id gone : String) (front back : List String)
    → owes id (front ++ gone ∷ back) ≡ owes id (front ++ back) + one_if (str_eq gone id)
owes-removed id gone [] back = omega arith
owes-removed id gone (x ∷ front) back = omega (arith, owes-removed id gone front back)

-- What comes back was owed.
pub owes-back :
    (gone : String) (ids front back : List String) (at : String → ℕ)
    → ids ≡ front ++ gone ∷ back
    → ((id : String) → owes id ids ≤ at id)
    → (1 ≤ at gone) × ((id : String) → owes id (front ++ back) + one_if (str_eq gone id) ≤ at id)
owes-back gone ids front back at e h = (
  (let a = owes-removed gone gone front back in
      let b : owes gone ids ≡ owes gone (front ++ gone ∷ back) = ap (owes gone) e in
      let c = h gone in
      let d : str_eq gone gone ≡ true = (eq_iff gone gone).1 refl in ground arith),
  λ id.
      let a = owes-removed id gone front back in
      let b : owes id ids ≡ owes id (front ++ gone ∷ back) = ap (owes id) e in
      let c = h id in omega arith,
)
