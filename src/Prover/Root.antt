-- ===== src/Prover/Root.antt =====
-- prover_v2/src/root_prover.rs up to the calls of the zkm prover: how a segment is read, which the
-- executor may not have written yet, and the record that is made of it.
pub mod Reads
pub mod Records
use zkm_prover.Base.{ℕ, zero, suc, ◌≡◌, String, Option, none, some, List, [], ◌∷◌}
use zkm_prover.Platform.{Bytes, Result, ok, panic, ◌>>=◌, World, unwrap_none}
use zkm_prover.Prover.Machine.{PublicValues, ExecutionRecord, Segment, of_state, of_record, Machine}

abbrev pub max_retries : ℕ
max_retries = 10

module _ {S E : Type 0} (m : Machine S E) where
  -- `std::fs::read`, zstd and bincode, one after the other; `none` is an error.
  unfoldable pub read_once : World → String → Option (Segment S E)
  read_once w path = elim (w.files path) [ some content ↦ m.decode content | none ↦ none ]

  -- The loop, with the retries left and the attempts made. The files may change between two
  -- attempts: `looks` has them at each.
  unfoldable pub read_loop : (ℕ → World) → String → ℕ → ℕ → Option (Segment S E)
  read_loop looks path zero attempt = read_once (looks attempt) path
  read_loop looks path (suc retries) attempt =
      let rest = read_loop looks path retries (suc attempt) in
      elim (read_once (looks attempt) path) [ some segment ↦ some segment | none ↦ rest ]

  unfoldable pub read_segment : (ℕ → World) → String → Option (Segment S E)
  unfolding read_loop
  read_segment looks path = read_loop looks path max_retries 0

  -- The first record of a trace, as the prover takes it.
  abbrev pub first_record : PublicValues → List (ExecutionRecord E) → Result (ExecutionRecord E)
  first_record public_values [] = panic unwrap_none
  first_record public_values (r ∷ rs) =
      ok (record { public_values = public_values; events = (m.defer r.events).0 })

  -- The record to prove.
  unfoldable pub record_of : Segment S E → Result (ExecutionRecord E)
  record_of (of_state state public_values) = first_record public_values (m.trace_checkpoint state)
  record_of (of_record r) = ok r
