-- ===== src/Server.antt =====
-- proof-service/src/prover_service.rs: how a prover node answers. What the pipeline of the prover
-- does with a request is a parameter.
pub mod Answers
use zkm_prover.Base.{
  ℕ, zero, suc, String, Bool, true, false, ◌&&◌, Option, none, some, List, [], ltb, if◌then◌else◌,
}
use zkm_prover.Platform.{Bytes}
use zkm_prover.Client.Requests.{Response, SplitTotals}
use zkm_prover.Client.Single.{SingleNodeOutput}

-- How a call of the pipeline ends.
pub data Outcome (A : Type 0) : Type 0 where
  returns : A → Outcome A
  fails : String → Outcome A
  panics : String → Outcome A

-- `std::result::Result<A, String>`
pub data Back (A : Type 0) : Type 0 where
  good : A → Back A
  bad : String → Back A

-- `run_back_task`: a panic of the call is an error like any other.
abbrev pub run_back_task : {A : Type 0} → Outcome A → Back A
run_back_task (returns a) = good a
run_back_task (fails e) = bad e
run_back_task (panics message) = bad message

-- `ResultCode` as the number in a message.
abbrev pub code_ok : ℕ
code_ok = 0

abbrev pub code_internal_error : ℕ
code_internal_error = 2

abbrev pub code_busy : ℕ
code_busy = 3

-- `on_done!`
unfoldable pub on_done : {A : Type 0} → Back (Bool × A) → ℕ
on_done (good (done, a)) = if done then code_ok else code_busy
on_done (bad e) = code_internal_error

abbrev totals_of : Back (Bool × ℕ × ℕ) → SplitTotals
totals_of (good (done, cycles, segments)) = record {
  total_steps = cycles;
  total_segments = segments;
}
totals_of (bad e) = record { total_steps = 0; total_segments = 0 }

-- A split is done if no error occurs and there is something to run.
abbrev split_done : Back (Bool × ℕ × ℕ) → Back (Bool × Bytes)
split_done (good (done, cycles, segments)) = good (ltb 0 cycles && done, [])
split_done (bad e) = bad e

unfoldable pub split_elf : Outcome (Bool × ℕ × ℕ) → Response SplitTotals
split_elf outcome =
    let result = run_back_task outcome in
    record { code = some (on_done (split_done result)); payload = totals_of result }

abbrev receipt_of : Back (Bool × Bytes) → Bytes
receipt_of (good (done, receipt)) = receipt
receipt_of (bad e) = []

unfoldable pub prove : Outcome (Bool × Bytes) → Response Bytes
prove outcome =
    let result = run_back_task outcome in
    record { code = some (on_done result); payload = receipt_of result }

unfoldable pub aggregate : Outcome (Bool × Bytes) → Response Bytes
aggregate outcome =
    let result = run_back_task outcome in
    record { code = some (on_done result); payload = receipt_of result }

unfoldable pub snark_proof : Outcome (Bool × Bytes) → Response Bytes
snark_proof outcome =
    let result = run_back_task outcome in
    record { code = some (on_done result); payload = receipt_of result }

abbrev single_done : Back (Bool × ℕ × Bytes) → Back (Bool × Bytes)
single_done (good (done, cycles, output)) = good (ltb 0 cycles && done, [])
single_done (bad e) = bad e

abbrev single_output : Back (Bool × ℕ × Bytes) → SingleNodeOutput
single_output (good (done, cycles, output)) = record { total_steps = cycles; output = output }
single_output (bad e) = record { total_steps = 0; output = [] }

-- With the feature prover_v2; the other build answers that it is not implemented.
unfoldable pub single_node : Outcome (Bool × ℕ × Bytes) → Response SingleNodeOutput
single_node outcome =
    let result = run_back_task outcome in
    record { code = some (on_done (single_done result)); payload = single_output result }
