-- ===== src/Prover/Done.antt =====
-- The answers of a node with prover_v2/src/pipeline.rs.
use zkm_prover.Base.{◌≢◌, some}
use zkm_prover.Platform.{Bytes}
use zkm_prover.Server.{Outcome, returns, fails, panics, prove, aggregate, on_done, code_busy}
use zkm_prover.Prover.Pipeline.{prove_root, prove_aggregate}

-- A prove call is never answered as busy.
prove-ne-busy : (o : Outcome Bytes) → (prove (prove_root o)).code ≢ some code_busy
unfolding prove on_done prove_root
prove-ne-busy (returns receipt) e = cc
prove-ne-busy (fails message) e = cc
prove-ne-busy (panics message) e = cc

-- Nor is an aggregation.
aggregate-ne-busy : (o : Outcome Bytes) → (aggregate (prove_aggregate o)).code ≢ some code_busy
unfolding aggregate on_done prove_aggregate
aggregate-ne-busy (returns receipt) e = cc
aggregate-ne-busy (fails message) e = cc
aggregate-ne-busy (panics message) e = cc
