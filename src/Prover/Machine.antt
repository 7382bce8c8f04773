-- ===== src/Prover/Machine.antt =====
-- What prover_v2/src/executor.rs and root_prover.rs use of the zkm prover, which is third-party: the
-- states and events of its executor are opaque, and what it computes is a parameter.
use zkm_prover.Base.{ℕ, ◌≡◌, Bool, Option, List, [], ◌∷◌}
use zkm_prover.Platform.{Bytes}

-- `PublicValues<u32, u32>`, the fields that the executor sets. An array is only copied, and stands
-- as one number.
pub record PublicValues : Type 0 where
  pub shard : ℕ
  pub execution_shard : ℕ
  pub start_pc : ℕ
  pub next_pc : ℕ
  pub committed_value_digest : ℕ
  pub deferred_proofs_digest : ℕ
  pub previous_init_addr_bits : ℕ
  pub last_init_addr_bits : ℕ
  pub previous_finalize_addr_bits : ℕ
  pub last_finalize_addr_bits : ℕ

-- `ExecutionRecord`: its public values, and its events.
pub record ExecutionRecord (E : Type 0) : Type 0 where
  pub public_values : PublicValues
  pub events : E

-- `Segment` of prover_v2/src/lib.rs; a state comes with public values, `StateWithPublicValues`.
pub data Segment (S E : Type 0) : Type 0 where
  of_state : S → PublicValues → Segment S E
  of_record : ExecutionRecord E → Segment S E

-- The program, the options and the shapes are fixed.
pub record Machine (S E : Type 0) : Type 0 where
  -- `trace_checkpoint`, the records
  pub trace_checkpoint : S → List (ExecutionRecord E)
  -- `ExecutionRecord::defer`: what is left in the record, and what is put off
  pub defer : E → E × E
  -- `ExecutionRecord::new`
  pub no_events : E
  -- `append`
  pub append : E → E → E
  -- `split`: what stays, and the records that are ready
  pub split : E → Bool → E × List (ExecutionRecord E)
  -- `bincode::serialize`, and zstd
  pub encode : Segment S E → Bytes
  -- zstd, and `bincode::deserialize`; `none` is an error of either
  pub decode : Bytes → Option (Segment S E)

-- One checkpoint is traced to one record, as the executor's `debug_assert_eq!` has it.
abbrev pub TracesOne : {S E : Type 0} → Machine S E → Type 0
TracesOne {S} {E} m = (s : S) → (r : ExecutionRecord E) × (m.trace_checkpoint s ≡ r ∷ [])
