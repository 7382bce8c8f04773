-- ===== src/Stage/Waiting.antt =====
-- Why an aggregation task never starts before what it aggregates has been proved: each input of a
-- task is still named among its `childs`, or a task under that id has succeeded.
pub mod Take
pub mod Hand
pub mod Replies
pub mod Answers
pub mod AggAnswers
pub mod Plan
pub mod Plain
pub mod Links
pub mod Start
use zkm_prover.Base.{
  ℕ, ◌≡◌, refl, ap, ◌⊎◌, inl, inr, sym, String, Bool, true, false, ◌&&◌, ◌||◌, Option, none, some,
  List, [], ◌∷◌, ◌==◌, str_eq, eq_iff, if◌then◌else◌, any, all, all_mono, Bool-cases, arith,
}
use zkm_prover.Platform.{World}
use zkm_prover.Tasks.{
  ProveTask, AggTask, AggregateInput, task_state_success, task_state_unprocessed,
}
use zkm_prover.Tasks.Agg.Clear.{awaits}
use zkm_prover.Stage.{Stage}
use zkm_prover.Stage.Prove.{clear_children}
use zkm_prover.Stage.Agg.{is_some, waits, take_agg, get_agg_task}

abbrev pub proved : String → List ProveTask → Bool
proved id = any λ t. str_eq t.task_id id && t.state == task_state_success

abbrev pub aggregated : String → List AggTask → Bool
aggregated id = any λ t. str_eq t.task_id id && t.state == task_state_success

-- A task under this id has succeeded.
abbrev pub is_done : List ProveTask → List AggTask → String → Bool
is_done proves aggs id = proved id proves || aggregated id aggs

-- Each input of the task is waited for or done.
abbrev pub is_covered : (String → Bool) → AggTask → Bool
is_covered is_done t =
    all (λ i. awaits t.childs i.computed_request_id || is_done i.computed_request_id) t.inputs

abbrev pub IsWaiting : List ProveTask → List AggTask → Type 0
IsWaiting proves aggs = all (is_covered (is_done proves aggs)) aggs ≡ true

-- What is done stays done.
abbrev pub Keeps : (String → Bool) → (String → Bool) → Type 0
Keeps before after = (id : String) → before id ≡ true → after id ≡ true

pub is_covered_mono :
    (before after : String → Bool) (t : AggTask)
    → Keeps before after
    → is_covered before t ≡ true
    → is_covered after t ≡ true
is_covered_mono before after t keeps =
    all_mono _ _ t.inputs λ i c. ground (arith, keeps i.computed_request_id)

pub all_covered_mono :
    (before after : String → Bool) (ts : List AggTask)
    → Keeps before after
    → all (is_covered before) ts ≡ true
    → all (is_covered after) ts ≡ true
all_covered_mono before after ts keeps = all_mono _ _ ts λ t. is_covered_mono before after t keeps

-- A task that waits for nobody has no input that is waited for.
awaits-none :
    (childs : List (Option String)) (id : String)
    → any is_some childs ≡ false
    → awaits childs id ≡ false
awaits-none [] id h = refl
awaits-none (none ∷ childs) id h = awaits-none childs id h
awaits-none (some c ∷ childs) id h = cc

pub inputs_done :
    (done : String → Bool) (t : AggTask)
    → waits t ≡ false
    → is_covered done t ≡ true
    → all (λ i. done i.computed_request_id) t.inputs ≡ true
inputs_done done t free =
    all_mono _ _ t.inputs λ i c. ground (arith, awaits-none t.childs i.computed_request_id free)
