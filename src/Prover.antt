-- ===== src/Prover.antt =====
-- The provers behind a node: src/prover and src/prover_v2 as far as they do not call the third-party
-- prover, whose results are parameters.
pub mod Pipeline
pub mod Busy
pub mod Done
pub mod Machine
pub mod Executor
pub mod Root
