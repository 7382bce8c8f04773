-- ===== src/Client/Laws.antt =====
-- What the calls do to the count of nodes in use, and what they do at its limit.
use zkm_prover.Base.{ℕ, ◌≤◌, ◌≡◌, arith}
use zkm_prover.Tasks.{SplitTask, ProveTask, AggTask, SnarkTask, task_state_unprocessed}
use zkm_prover.Client.{Pool, Outside, at_limit, enter}
use zkm_prover.Client.Calls.{returns, begin_split, begin_prove, begin_aggregate, begin_snark}

-- At the limit nothing is touched.
enter-at_limit :
    (out : Outside) (max_prover_num : ℕ) (p : Pool)
    → max_prover_num ≤ p.cur_prover_num
    → enter out max_prover_num p ≡ (p, at_limit)
unfolding enter
enter-at_limit out max_prover_num p h = ground arith

-- At the limit every call returns its task at once and leaves the pool as it is: three of them
-- with the task open again, and `snark_proof` with the task as it came.
pub begin-at_limit :
    (out : Outside) (max_prover_num : ℕ) (p : Pool) (split : SplitTask) (prove : ProveTask)
    (agg : AggTask) (snark : SnarkTask)
    → max_prover_num ≤ p.cur_prover_num
    → (begin_split out max_prover_num split p
        ≡ (p, returns (record split { state = task_state_unprocessed })))
      × (begin_prove out max_prover_num prove p
          ≡ (p, returns (record prove { state = task_state_unprocessed })))
      × (begin_aggregate out max_prover_num agg p
          ≡ (p, returns (record agg { state = task_state_unprocessed })))
      × (begin_snark out max_prover_num snark p ≡ (p, returns snark))
unfolding begin_split begin_prove begin_aggregate begin_snark
begin-at_limit out max_prover_num p split prove agg snark h =
    let e = enter-at_limit out max_prover_num p h in (rw e, rw e, rw e, rw e)

pub begin_snark-at_limit :
    (out : Outside) (max_prover_num : ℕ) (p : Pool) (t : SnarkTask)
    → max_prover_num ≤ p.cur_prover_num
    → begin_snark out max_prover_num t p ≡ (p, returns t)
unfolding begin_snark
begin_snark-at_limit out max_prover_num p t h = rw (enter-at_limit out max_prover_num p h)
