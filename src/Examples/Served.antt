-- ===== src/Examples/Served.antt =====
-- A node's answers: a proof that is done, and a prover that panics on the split.
use zkm_prover.Base.{ℕ, ◌≡◌, refl, Bool, true, some, [], ◌∷◌, ◌++◌}
use zkm_prover.Platform.{Bytes}
use zkm_prover.Tasks.{
  ProveTask, task_state_unprocessed, task_state_processing, task_state_success, task_state_failed,
}
use zkm_prover.Tasks.Agg.{default_agg}
use zkm_prover.Stage.{default_split, default_snark}
use zkm_prover.Stage.Prove.{on_prove_reply}
use zkm_prover.Client.{Pool}
use zkm_prover.Client.Calls.{end_split, end_prove, end_aggregate, end_snark}
use zkm_prover.Server.{Outcome, returns, panics, split_elf, prove, aggregate, snark_proof}
use zkm_prover.Server.Answers.{IsTaken, answers_understood}
use zkm_prover.Examples.{example_world, prove_at}
use zkm_prover.Examples.Hands.{half_done}

abbrev pool : Pool
pool = record { nodes = []; cur_prover_num = 1 }

abbrev crashed : Outcome (Bool × ℕ × ℕ)
crashed = panics "out of memory"

abbrev proved : Outcome (Bool × Bytes)
proved = returns (true, 5 ∷ [])

-- The task as it is sent, and as the stage keeps it.
abbrev sent : ProveTask
sent = prove_at "p1" 1 "base/1" task_state_unprocessed 2

abbrev stored : ProveTask
stored = prove_at "p1" 1 "base/1" task_state_processing 2

answers_understood_example :
    let split' = (end_split 1000 0 default_split (some (split_elf crashed)) pool).1 in
    let sent' = (end_prove 1000 0 sent (some (prove proved)) pool).1 in
    let agg' = (end_aggregate 1000 0 default_agg (some (aggregate proved)) pool).1 in
    let snark' = (end_snark 1000 0 default_snark (some (snark_proof proved)) pool).1 in
    ((split'.state ≡ task_state_failed) × (split'.total_steps ≡ 0) × (split'.total_segments ≡ 0))
    × ((t' : ProveTask) × ((on_prove_reply example_world sent' half_done).0.prove_tasks
          ≡ (prove_at "p0" 0 "base/0" task_state_success 0 ∷ []) ++ t' ∷ [])
        × IsTaken stored proved t')
    × ((agg'.state ≡ task_state_success) × (agg'.output ≡ 5 ∷ []))
    × ((snark'.state ≡ task_state_success) × (snark'.output ≡ 5 ∷ []))
answers_understood_example =
    answers_understood 1000 0 default_split default_agg default_snark crashed proved pool
      example_world sent half_done (prove_at "p0" 0 "base/0" task_state_success 0 ∷ []) [] stored
      refl refl refl
