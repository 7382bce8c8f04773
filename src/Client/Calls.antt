-- ===== src/Client/Calls.antt =====
-- `split`, `prove`, `aggregate` and `snark_proof` of proof-service/src/prover_client.rs. `begin`
-- ends the call or names the node and the request; `end` takes the node's answer, `none` where
-- the call failed.
use zkm_prover.Base.{ℕ, String, Bool, true, false, Option, none, some, str_eq, if◌then◌else◌}
use zkm_prover.Platform.{Bytes}
use zkm_prover.Tasks.{
  SplitTask, ProveTask, AggTask, SnarkTask, task_state_unprocessed, task_state_success,
  task_state_failed,
}
use zkm_prover.Nodes.{idle, set_status}
use zkm_prover.Client.{
  Pool, Outside, Entry, at_limit, no_node, on_node, enter, leave, addr_at, result_code,
  result_code_to_state, ResultCode,
}
use zkm_prover.Client.Requests.{
  SplitElfRequest, ProveRequest, AggregateRequest, SnarkProofRequest, Response, SplitTotals,
  split_request, prove_request, aggregate_request, snark_request,
}

-- The first half of a call returns the task, or waits for node `i`.
pub data Begun (T R : Type 0) : Type 0 where
  returns : T → Begun T R
  waits_for : ℕ → T → R → Begun T R

abbrev pub answered {ℓ} : {A : Type ℓ} → Option A → Bool
answered none = false
answered (some _) = true

split_entry : SplitTask → Entry → Begun SplitTask SplitElfRequest
split_entry t at_limit = returns t
split_entry t no_node = returns t
split_entry t (on_node i) = waits_for i t (split_request t)

unfoldable pub begin_split : Outside → ℕ → SplitTask → Pool → Pool × Begun SplitTask SplitElfRequest
unfolding split_entry
begin_split out max_prover_num t p =
    let (p', entry) = enter out max_prover_num p in
    (p', split_entry (record t { state = task_state_unprocessed }) entry)

split_answer : String → SplitTask → Option (Response SplitTotals) → SplitTask
split_answer addr t none = t
split_answer addr t (some r) = elim r.code [
  | none ↦ t
  | some code ↦ record t {
    state = result_code_to_state code;
    trace = record t.trace { node_info = addr };
    total_steps = r.payload.total_steps;
    total_segments = r.payload.total_segments;
  }
]

unfoldable pub end_split :
    ℕ → ℕ → SplitTask → Option (Response SplitTotals) → Pool → Pool × SplitTask
unfolding split_answer
end_split now i t r p = (leave now (answered r) i p, split_answer (addr_at p.nodes i) t r)

-- A node that the task has met before is let go, and the task is returned. The count stays up.
unfoldable pub prove_on : Pool → ProveTask → ℕ → Pool × Begun ProveTask ProveRequest
prove_on p t i =
    if str_eq t.trace.node_info (addr_at p.nodes i)
    then (record p { nodes = set_status i idle p.nodes }, returns t)
    else (p, waits_for i t (prove_request t))

prove_entry : Pool → ProveTask → Entry → Pool × Begun ProveTask ProveRequest
unfolding prove_on
prove_entry p t at_limit = (p, returns t)
prove_entry p t no_node = (p, returns t)
prove_entry p t (on_node i) = prove_on p t i

unfoldable pub begin_prove : Outside → ℕ → ProveTask → Pool → Pool × Begun ProveTask ProveRequest
unfolding prove_entry
begin_prove out max_prover_num t p =
    let (p', entry) = enter out max_prover_num p in
    prove_entry p' (record t { state = task_state_unprocessed }) entry

prove_answer : String → ProveTask → Option (Response Bytes) → ProveTask
prove_answer addr t none = t
prove_answer addr t (some r) = elim r.code [
  | none ↦ t
  | some code ↦ record t {
    state = result_code_to_state code;
    trace = record t.trace { node_info = addr };
    output = r.payload;
  }
]

unfoldable pub end_prove : ℕ → ℕ → ProveTask → Option (Response Bytes) → Pool → Pool × ProveTask
unfolding prove_answer
end_prove now i t r p = (leave now (answered r) i p, prove_answer (addr_at p.nodes i) t r)

agg_entry : AggTask → Entry → Begun AggTask AggregateRequest
agg_entry t at_limit = returns t
agg_entry t no_node = returns t
agg_entry t (on_node i) = waits_for i t (aggregate_request t)

unfoldable pub begin_aggregate :
    Outside → ℕ → AggTask → Pool → Pool × Begun AggTask AggregateRequest
unfolding agg_entry
begin_aggregate out max_prover_num t p =
    let (p', entry) = enter out max_prover_num p in
    (p', agg_entry (record t { state = task_state_unprocessed }) entry)

agg_answer : String → AggTask → Option (Response Bytes) → AggTask
agg_answer addr t none = t
agg_answer addr t (some r) = elim r.code [
  | none ↦ t
  | some code ↦ record t {
    state = result_code_to_state code;
    trace = record t.trace { node_info = addr };
    output = r.payload;
  }
]

unfoldable pub end_aggregate : ℕ → ℕ → AggTask → Option (Response Bytes) → Pool → Pool × AggTask
unfolding agg_answer
end_aggregate now i t r p = (leave now (answered r) i p, agg_answer (addr_at p.nodes i) t r)

-- At the limit the task is returned as it came; only where no node is found it is reset.
snark_entry : SnarkTask → Entry → Begun SnarkTask SnarkProofRequest
snark_entry t at_limit = returns t
snark_entry t no_node = returns (record t { state = task_state_unprocessed })
snark_entry t (on_node i) = waits_for i t (snark_request t)

unfoldable pub begin_snark :
    Outside → ℕ → SnarkTask → Pool → Pool × Begun SnarkTask SnarkProofRequest
unfolding snark_entry
begin_snark out max_prover_num t p =
    let (p', entry) = enter out max_prover_num p in (p', snark_entry t entry)

abbrev is_ok : Option ResultCode → Bool
is_ok (some ResultCode.ok) = true
is_ok _ = false

snark_coded : String → SnarkTask → Bytes → Option ℕ → SnarkTask
snark_coded addr t output none = record t { state = task_state_failed }
snark_coded addr t output (some code) =
    if is_ok (result_code code)
    then record t {
      state = task_state_success;
      trace = record t.trace { node_info = addr };
      output = output;
    }
    else record t { state = task_state_failed }

-- Whatever is not a success is a failure.
snark_answer : String → SnarkTask → Option (Response Bytes) → SnarkTask
unfolding snark_coded
snark_answer addr t none = record t { state = task_state_failed }
snark_answer addr t (some r) = snark_coded addr t r.payload r.code

unfoldable pub end_snark : ℕ → ℕ → SnarkTask → Option (Response Bytes) → Pool → Pool × SnarkTask
unfolding snark_answer
end_snark now i t r p = (leave now (answered r) i p, snark_answer (addr_at p.nodes i) t r)
