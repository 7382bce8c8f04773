-- ===== src/Server/Answers.antt =====
-- A node's answer, as the call that waits for it takes it.
use zkm_prover.Base.{
  ℕ, suc, ◌≡◌, refl, ap, ◌∙◌, Bool, true, false, some, List, [], ◌∷◌, ◌++◌, any, arith,
  if◌then◌else◌, ltb, ◌&&◌,
}
use zkm_prover.Platform.{Bytes, World}
use zkm_prover.Tasks.{
  SplitTask, ProveTask, AggTask, SnarkTask, task_state_unprocessed, task_state_success,
  task_state_failed,
}
use zkm_prover.Tasks.Progress.{on_prove_task}
use zkm_prover.Stage.{Stage}
use zkm_prover.Stage.Prove.{answer_prove, on_prove_reply}
use zkm_prover.Stage.Prove.Replies.{meets, answer_prove_met, on_prove_reply-tasks}
use zkm_prover.Client.{Pool, result_code, result_code_to_state}
use zkm_prover.Client.Calls.{end_split, end_prove, end_aggregate, end_snark}
use zkm_prover.Server.{Outcome, fails, panics, on_done, split_elf, prove, aggregate, snark_proof}

-- What an outcome means for the task: it is done, to be tried again, or has failed.
abbrev pub state_of_outcome : {A : Type 0} → Outcome (Bool × A) → ℕ
state_of_outcome (Outcome.returns (done, a)) =
    if done then task_state_success else task_state_unprocessed
state_of_outcome (fails e) = task_state_failed
state_of_outcome (panics message) = task_state_failed

abbrev pub receipt_of_outcome : Outcome (Bool × Bytes) → Bytes
receipt_of_outcome (Outcome.returns (done, receipt)) = receipt
receipt_of_outcome (fails e) = []
receipt_of_outcome (panics message) = []

end_aggregate-aggregate :
    (now i : ℕ) (t : AggTask) (o : Outcome (Bool × Bytes)) (p : Pool)
    → let t' = (end_aggregate now i t (some (aggregate o)) p).1 in
      (t'.state ≡ state_of_outcome o) × (t'.output ≡ receipt_of_outcome o)
unfolding end_aggregate aggregate on_done result_code_to_state result_code
end_aggregate-aggregate now i t (Outcome.returns (true, receipt)) p = (refl, refl)
end_aggregate-aggregate now i t (Outcome.returns (false, receipt)) p = (refl, refl)
end_aggregate-aggregate now i t (fails e) p = (refl, refl)
end_aggregate-aggregate now i t (panics message) p = (refl, refl)

-- A snark that is not done is not tried again, and keeps the output that it had.
abbrev pub final_state : Outcome (Bool × Bytes) → ℕ
final_state (Outcome.returns (done, proof)) = if done then task_state_success else task_state_failed
final_state (fails e) = task_state_failed
final_state (panics message) = task_state_failed

abbrev pub final_output : Bytes → Outcome (Bool × Bytes) → Bytes
final_output before (Outcome.returns (done, proof)) = if done then proof else before
final_output before (fails e) = before
final_output before (panics message) = before

end_snark-snark_proof :
    (now i : ℕ) (t : SnarkTask) (o : Outcome (Bool × Bytes)) (p : Pool)
    → let t' = (end_snark now i t (some (snark_proof o)) p).1 in
      (t'.state ≡ final_state o) × (t'.output ≡ final_output t.output o)
unfolding end_snark snark_proof on_done result_code
end_snark-snark_proof now i t (Outcome.returns (true, receipt)) p = (refl, refl)
end_snark-snark_proof now i t (Outcome.returns (false, receipt)) p = (refl, refl)
end_snark-snark_proof now i t (fails e) p = (refl, refl)
end_snark-snark_proof now i t (panics message) p = (refl, refl)

-- A split counts as done only if it has run for a cycle; one that has not is opened again.
abbrev pub split_state : Outcome (Bool × ℕ × ℕ) → ℕ
split_state (Outcome.returns (done, cycles, segments)) =
    if ltb 0 cycles && done then task_state_success else task_state_unprocessed
split_state (fails e) = task_state_failed
split_state (panics message) = task_state_failed

abbrev pub steps_of : Outcome (Bool × ℕ × ℕ) → ℕ
steps_of (Outcome.returns (done, cycles, segments)) = cycles
steps_of (fails e) = 0
steps_of (panics message) = 0

abbrev pub segments_of : Outcome (Bool × ℕ × ℕ) → ℕ
segments_of (Outcome.returns (done, cycles, segments)) = segments
segments_of (fails e) = 0
segments_of (panics message) = 0

end_split-split_elf :
    (now i : ℕ) (t : SplitTask) (o : Outcome (Bool × ℕ × ℕ)) (p : Pool)
    → let t' = (end_split now i t (some (split_elf o)) p).1 in
      (t'.state ≡ split_state o)
      × (t'.total_steps ≡ steps_of o)
      × (t'.total_segments ≡ segments_of o)
unfolding end_split split_elf on_done result_code_to_state result_code
end_split-split_elf now i t (Outcome.returns (done, cycles, segments)) p =
    (ground arith, refl, refl)
end_split-split_elf now i t (fails e) p = (refl, refl, refl)
end_split-split_elf now i t (panics message) p = (refl, refl, refl)

-- What the stage keeps of a proof: the receipt of a call that is done, nothing of one that has
-- failed, and what there was before where the task is opened again.
abbrev pub kept_output : Bytes → Outcome (Bool × Bytes) → Bytes
kept_output before (Outcome.returns (done, receipt)) = if done then receipt else before
kept_output before (fails e) = []
kept_output before (panics message) = []

-- Only a failure counts as one, up to three.
abbrev pub failures_after : ℕ → Outcome (Bool × Bytes) → ℕ
failures_after before (Outcome.returns (done, receipt)) = before
failures_after before (fails e) = if ltb before 3 then suc before else before
failures_after before (panics message) = if ltb before 3 then suc before else before

-- A prove task once the stage has taken the answer in.
abbrev pub IsTaken : ProveTask → Outcome (Bool × Bytes) → ProveTask → Type 0
IsTaken t o t' =
    (t'.task_id ≡ t.task_id)
    × (t'.state ≡ state_of_outcome o)
    × (t'.output ≡ kept_output t.output o)
    × (t'.failure_count ≡ failures_after t.failure_count o)

on_prove_task-IsTaken :
    (now later i : ℕ) (t src : ProveTask) (o : Outcome (Bool × Bytes)) (p : Pool)
    → IsTaken t o (on_prove_task later (end_prove now i src (some (prove o)) p).1 t).dst
unfolding on_prove_task end_prove prove on_done result_code_to_state result_code
on_prove_task-IsTaken now later i t src (Outcome.returns (true, receipt)) p =
    (refl, refl, refl, refl)
on_prove_task-IsTaken now later i t src (Outcome.returns (false, receipt)) p =
    (refl, refl, refl, refl)
on_prove_task-IsTaken now later i t src (fails e) p =
    (ground arith, ground arith, ground arith, ground arith)
on_prove_task-IsTaken now later i t src (panics message) p =
    (ground arith, ground arith, ground arith, ground arith)

-- The call's end keeps the id, so that the reply meets the task that was sent.
reply_met :
    (now i : ℕ) (w : World) (src : ProveTask) (o : Outcome (Bool × Bytes)) (p : Pool) (s : Stage)
    (front back : List ProveTask) (t : ProveTask)
    → s.prove_tasks ≡ front ++ t ∷ back
    → any (meets src) front ≡ false
    → meets src t ≡ true
    → let src' = (end_prove now i src (some (prove o)) p).1 in
      (on_prove_reply w src' s).0.prove_tasks ≡ front ++ (on_prove_task w.now src' t).dst ∷ back
unfolding end_prove prove
reply_met now i w src o p s front back t e none_before met =
    let src' = (end_prove now i src (some (prove o)) p).1 in
    on_prove_reply-tasks w src' s
    ∙ ap (λ (ts : List ProveTask). (answer_prove w.now src' ts).1) e
    ∙ answer_prove_met w.now src' front back t none_before met

-- What a node answers is what its caller understands. A call that is done makes the task a success
-- with the receipt or the proof as its output, one that is not done opens it again (a snark fails
-- instead and keeps its output), an error or a panic of the prover is a failure. A split that has
-- run for no cycle is opened again, and its numbers of steps and segments are those of the prover.
-- The prove task that was sent stands in its place in the stage then, with its id, that state, the
-- receipt, its output of before if it is open again, and one more failure if the prover failed, up
-- to three.
pub answers_understood :
    (now i : ℕ) (split : SplitTask) (agg : AggTask) (snark : SnarkTask)
    (totals : Outcome (Bool × ℕ × ℕ)) (o : Outcome (Bool × Bytes)) (p : Pool) (w : World)
    (src : ProveTask) (s : Stage) (front back : List ProveTask) (t : ProveTask)
    → s.prove_tasks ≡ front ++ t ∷ back
    → any (meets src) front ≡ false
    → meets src t ≡ true
    → let split' = (end_split now i split (some (split_elf totals)) p).1 in
      let src' = (end_prove now i src (some (prove o)) p).1 in
      let agg' = (end_aggregate now i agg (some (aggregate o)) p).1 in
      let snark' = (end_snark now i snark (some (snark_proof o)) p).1 in
      ((split'.state ≡ split_state totals)
        × (split'.total_steps ≡ steps_of totals)
        × (split'.total_segments ≡ segments_of totals))
      × ((t' : ProveTask) × ((on_prove_reply w src' s).0.prove_tasks ≡ front ++ t' ∷ back)
          × IsTaken t o t')
      × ((agg'.state ≡ state_of_outcome o) × (agg'.output ≡ receipt_of_outcome o))
      × ((snark'.state ≡ final_state o) × (snark'.output ≡ final_output snark.output o))
answers_understood now i split agg snark totals o p w src s front back t e none_before met = (
  end_split-split_elf now i split totals p,
  (
    (on_prove_task w.now (end_prove now i src (some (prove o)) p).1 t).dst,
    reply_met now i w src o p s front back t e none_before met,
    on_prove_task-IsTaken now w.now i t src o p,
  ),
  end_aggregate-aggregate now i agg o p,
  end_snark-snark_proof now i snark o p,
)
