-- ===== src/Prover/Root/Records.antt =====
-- The record that is proved, beside the one that the executor had.
use zkm_prover.Base.{◌≡◌, ap, ◌∙◌, sym, Bool, List, ◌∷◌, map, get_elem?, drop, some_injective}
use zkm_prover.Platform.{ok}
use zkm_prover.Prover.Machine.{ExecutionRecord, Segment, of_record, Machine, TracesOne}
use zkm_prover.Prover.Executor.{Shared, take_turn, advance}
use zkm_prover.Prover.Executor.Order.{ok_pair}
use zkm_prover.Prover.Root.{record_of}

module _ {S E : Type 0} (m : Machine S E) where
  -- The record of a checkpoint as the executor leaves it: with the public values of its turn, and
  -- without the events that are put off.
  abbrev pub kept : Shared E → ExecutionRecord E → ExecutionRecord E
  kept shared r = record { public_values = advance shared.state r; events = (m.defer r.events).0 }

  -- Of the first segment of a turn the prover makes the record that the executor had. The others
  -- are records, and stay as they are.
  pub record_of-take_turn :
      (one : TracesOne m) (exe_state : S) (done : Bool) (shared shared' : Shared E)
      (first : Segment S E) (more : List (Segment S E))
      → take_turn m exe_state done shared ≡ ok (shared', first ∷ more)
      → (record_of m first ≡ ok (kept shared (one exe_state).0))
        × (rs : List (ExecutionRecord E)) × (more ≡ map of_record rs)
  unfolding take_turn record_of
  record_of-take_turn one exe_state done shared shared' first more turn =
      let (r, traced) = one exe_state in
      let (same, made) = ok_pair (rw traced at turn) in
      let head = some_injective (ap (λ (l : List (Segment S E)). get_elem? l 0) made) in
      (
        ap (record_of m) (sym head) ∙ (rw traced),
        _,
        sym (ap (λ (l : List (Segment S E)). drop 1 l) made),
      )
