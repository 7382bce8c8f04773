-- ===== src/Prover/Pipeline.antt =====
-- prover/src/pipeline.rs and prover_v2/src/pipeline.rs: the calls that a node makes, around those
-- of the provers, whose outcomes are parameters. A call of prover/src/pipeline.rs that takes the
-- mutex is two functions, before and after the prover's work; its outcome is at hand in between.
use zkm_prover.Base.{ℕ, Bool, true, false, Option, none, some, []}
use zkm_prover.Platform.{Bytes}
use zkm_prover.Server.{Outcome, returns, fails, panics}

-- `std::sync::Mutex`: a guard that is dropped by a panic leaves it poisoned.
pub data Mutex : Type 0 where
  free held poisoned : Mutex

-- `try_lock`; `none` is an error, of a mutex that is held or poisoned.
abbrev pub try_lock : Mutex → Option Mutex
try_lock Mutex.free = some Mutex.held
try_lock Mutex.held = none
try_lock Mutex.poisoned = none

-- The guard's drop.
abbrev pub drop_guard : {A : Type 0} → Outcome A → Mutex
drop_guard (returns a) = Mutex.free
drop_guard (fails e) = Mutex.free
drop_guard (panics message) = Mutex.poisoned

-- `Ok((false, vec![]))`
abbrev pub busy : Outcome (Bool × Bytes)
busy = returns (false, [])

-- The mutex after `try_lock`, and the answer where the call ends there: the same code in
-- `prove_root`, `prove_aggregate` and `prove_snark`.
unfoldable pub begin_call : Mutex → Mutex × Option (Outcome (Bool × Bytes))
begin_call m = elim (try_lock m) [ some m' ↦ (m', none) | none ↦ (m, some busy) ]

-- The mutex after the prover's work, and the answer.
unfoldable pub end_call : Outcome (Bool × Bytes) → Mutex × Outcome (Bool × Bytes)
end_call outcome = (drop_guard outcome, outcome)

-- What `get_status` says, and the mutex after it: the guard is dropped at once.
unfoldable pub get_status : Mutex → Mutex × Bool
get_status m = elim (try_lock m) [ some m' ↦ (Mutex.free, true) | none ↦ (m, false) ]

-- The split does not take the mutex.
unfoldable pub split : Outcome (ℕ × ℕ) → Outcome (Bool × ℕ × ℕ)
split (returns (steps, segments)) = returns (true, steps, segments)
split (fails e) = fails e
split (panics message) = panics message

-- prover_v2: a prover that returns is done.
abbrev done : {A : Type 0} → Outcome A → Outcome (Bool × A)
done (returns a) = returns (true, a)
done (fails e) = fails e
done (panics message) = panics message

unfoldable pub prove_root : Outcome Bytes → Outcome (Bool × Bytes)
prove_root outcome = done outcome

unfoldable pub prove_aggregate : Outcome Bytes → Outcome (Bool × Bytes)
prove_aggregate outcome = done outcome

-- `SnarkProver::prove` says itself that it is done.
unfoldable pub prove_snark : Outcome (Bool × Bytes) → Outcome (Bool × Bytes)
prove_snark outcome = outcome

unfoldable pub prove_single_node : Outcome (ℕ × Bytes) → Outcome (Bool × ℕ × Bytes)
prove_single_node (returns (cycles, output)) = returns (true, cycles, output)
prove_single_node (fails e) = fails e
prove_single_node (panics message) = panics message
