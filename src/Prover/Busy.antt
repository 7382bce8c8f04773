-- ===== src/Prover/Busy.antt =====
-- Histories of a node with prover/src/pipeline.rs: calls from several clients come and end.
use zkm_prover.Base.{ℕ, suc, ◌≡◌, Bool, true, false, ◌||◌, none, some, List, [], ◌∷◌}
use zkm_prover.Platform.{Bytes}
use zkm_prover.Server.{Outcome, returns, fails, panics}
use zkm_prover.Prover.Pipeline.{Mutex, busy, begin_call, end_call, get_status}

-- The node: its mutex and how many calls are at work in a prover.
pub record Node : Type 0 where
  pub mutex : Mutex
  pub at_work : ℕ

-- A call is turned away with an answer, or gets in; a call at work ends, with any outcome.
pub data Event : Type 0 where
  turned_away entered : Event
  left : Outcome (Bool × Bytes) → Event

pub data Step : Node → Event → Node → Type 0 where
  turns_away :
      (n : Node) (answer : Outcome (Bool × Bytes))
      → (begin_call n.mutex).1 ≡ some answer
      → Step n turned_away (record n { mutex = (begin_call n.mutex).0 })
  enters :
      (n : Node)
      → (begin_call n.mutex).1 ≡ none
      → Step n entered (record { mutex = (begin_call n.mutex).0; at_work = suc n.at_work })
  comes_out :
      (n : Node) (outcome : Outcome (Bool × Bytes)) (others : ℕ)
      → n.at_work ≡ suc others
      → Step n (left outcome) (record { mutex = (end_call outcome).0; at_work = others })

abbrev pub fresh : Node
fresh = record { mutex = Mutex.free; at_work = 0 }

-- A history, the newest event first.
pub data Reach : List Event → Node → Type 0 where
  here : Reach [] fresh
  next :
      {es : List Event} {n : Node} {e : Event} {n' : Node}
      → Reach es n
      → Step n e n'
      → Reach (e ∷ es) n'

abbrev pub is_panic : Event → Bool
is_panic turned_away = false
is_panic entered = false
is_panic (left (returns a)) = false
is_panic (left (fails e)) = false
is_panic (left (panics message)) = true

-- A call has panicked.
abbrev pub panicked : List Event → Bool
panicked [] = false
panicked (e ∷ es) = is_panic e || panicked es

-- What the mutex says of the history.
abbrev Agrees : Mutex → ℕ → Bool → Type 0
Agrees Mutex.free n p = (n ≡ 0) × (p ≡ false)
Agrees Mutex.held n p = (n ≡ 1) × (p ≡ false)
Agrees Mutex.poisoned n p = (n ≡ 0) × (p ≡ true)

-- A new call is turned away, with `busy`, and `get_status` says no.
abbrev pub IsBusy : Mutex → Type 0
IsBusy m = ((begin_call m).1 ≡ some busy) × ((get_status m).1 ≡ false)
