-- ===== src/Prover/Executor.antt =====
-- `split_with_context` of prover_v2/src/executor.rs: the checkpoints of a program are traced by
-- several workers at once, which number the segments in turn and write them to files.
pub mod Run
pub mod Files
pub mod Order
pub mod Refines
pub mod Ends
pub mod Drain
use zkm_prover.Base.{
  ℕ, zero, suc, ◌+◌, ◌^◌, ◌%◌, ◌≡◌, ◌<◌, String, Bool, true, false, Option, none, some, List, [],
  ◌∷◌, ◌++◌, map, length, str_eq, if◌then◌else◌,
}
use zkm_prover.Platform.{Bytes, Result, ok, panic, ◌>>=◌, World, index_out_of_bounds, expect_failed}
use zkm_prover.Stage.Segments.{show, segment_path, codes}
use zkm_prover.Stage.Segments.Names.{count_path, temporary}
use zkm_prover.Prover.Machine.{PublicValues, ExecutionRecord, Segment, of_state, of_record, Machine}

-- A `u32` counter.
abbrev next_u32 : ℕ → ℕ
next_u32 n = (n + 1) % 2 ^ 32

-- The state after a record with cpu events.
unfoldable pub advance : {E : Type 0} → PublicValues → ExecutionRecord E → PublicValues
advance state r = record state {
  shard = next_u32 state.shard;
  execution_shard = r.public_values.execution_shard;
  start_pc = r.public_values.start_pc;
  next_pc = r.public_values.next_pc;
  committed_value_digest = r.public_values.committed_value_digest;
  deferred_proofs_digest = r.public_values.deferred_proofs_digest;
}

-- The state after a record of deferred events.
unfoldable pub advance_deferred : {E : Type 0} → PublicValues → ExecutionRecord E → PublicValues
advance_deferred state r = record state {
  shard = next_u32 state.shard;
  previous_init_addr_bits = r.public_values.previous_init_addr_bits;
  last_init_addr_bits = r.public_values.last_init_addr_bits;
  previous_finalize_addr_bits = r.public_values.previous_finalize_addr_bits;
  last_finalize_addr_bits = r.public_values.last_finalize_addr_bits;
  start_pc = state.next_pc;
}

-- A loop over records: each gets the state that it leads to.
unfoldable pub stamp :
    {E : Type 0} (step : PublicValues → ExecutionRecord E → PublicValues)
    → PublicValues
    → List (ExecutionRecord E)
    → PublicValues × List (ExecutionRecord E)
stamp step state [] = (state, [])
stamp step state (r ∷ rs) =
    let (state', stamped) = stamp step (step state r) rs in
    (state', record r { public_values = step state r } ∷ stamped)

-- What the workers share: `state`, `deferred` and `segment_index`.
pub record Shared (E : Type 0) : Type 0 where
  pub state : PublicValues
  pub deferred : E
  pub segment_index : ℕ

-- The world with a file renamed to its place, from the temporary one.
abbrev pub renamed : World → String → Bytes → World
renamed w path buf = record w {
  files = λ p.
      if str_eq p path then some buf else (if str_eq p (temporary path) then none else w.files p);
}

-- `write_file`: a temporary file that is renamed. `none` is an error. Nothing reads the temporary
-- file, and the rename is one step, so that all of it is.
unfoldable pub write_file : World → String → Bytes → Option World
write_file w path buf = if w.writable (temporary path) then some (renamed w path buf) else none

module _ {S E : Type 0} (m : Machine S E) where
  -- The events of the records that are put off.
  unfoldable pub put_off : E → List (ExecutionRecord E) → E
  put_off deferred [] = deferred
  put_off deferred (r ∷ rs) = put_off (m.append deferred (m.defer r.events).1) rs

  -- `records[0]`
  abbrev pub first_segment : S → List (ExecutionRecord E) → Result (Segment S E)
  first_segment exe_state [] = panic index_out_of_bounds
  first_segment exe_state (r ∷ rs) = ok (of_state exe_state r.public_values)

  abbrev pub after_batch : Bool → PublicValues → PublicValues
  after_batch done state =
      if done then state else record state { execution_shard = next_u32 state.execution_shard }

  -- A worker's turn: the shared values after it, and the segments that it makes.
  unfoldable pub take_turn : S → Bool → Shared E → Result (Shared E × List (Segment S E))
  unfolding advance advance_deferred stamp put_off
  take_turn exe_state done shared =
      let (state, records) = stamp advance shared.state (m.trace_checkpoint exe_state) in
      let (deferred, ready) = m.split (put_off shared.deferred records) done in
      let (state', stamped) = stamp advance_deferred (after_batch done state) ready in
      do
        first ← first_segment exe_state records
        ok (
          record {
            state = state';
            deferred = deferred;
            segment_index = shared.segment_index + (length records + length stamped);
          },
          first ∷ map of_record stamped,
        )

  -- The segments of a batch with their numbers, encoded.
  abbrev pub numbered : ℕ → List (Segment S E) → List (ℕ × Bytes)
  numbered base_index [] = []
  numbered base_index (s ∷ ss) = (base_index, m.encode s) ∷ numbered (suc base_index) ss
