-- ===== src/Examples/Calls.antt =====
-- Nodes and calls: three nodes, of which the second is held.
use zkm_prover.Base.{ℕ, ◌≡◌, refl, true, false, none, some, List, [], ◌∷◌, arith}
use zkm_prover.Platform.{World, ok, write, written}
use zkm_prover.Tasks.{ProveTask, SnarkTask, task_state_unprocessed, task_state_processing}
use zkm_prover.Nodes.{ProverNode, idle, busy, off_line, get_idle_client}
use zkm_prover.Nodes.Laws.{Spares, Held, get_idle_client-Spares, get_idle_client-Held}
use zkm_prover.Client.{Pool, Outside, on_node, enter_on}
use zkm_prover.Client.Laws.{begin_snark-at_limit}
use zkm_prover.Tasks.Progress.{on_task}
use zkm_prover.Client.Calls.{
  returns, begin_split, begin_prove, begin_aggregate, begin_snark, prove_on,
}
use zkm_prover.Client.Limit.{
  System, initial, met, Reach, start, later, IsCounted, Reach-IsCounted, leaked-starves,
}
use zkm_prover.Stage.{Stage, default_split, default_snark}
use zkm_prover.Stage.Snark.{get_snark_task, on_snark_reply}
use zkm_prover.Stuck.{snark_task_stuck}
use zkm_prover.Tasks.Agg.{default_agg, default_trace}
use zkm_prover.Examples.{example_world, prove_at, three_proofs, stage_with}

abbrev nodes : List ProverNode
nodes =
    record { addr = "n0"; has_client = false; status = off_line 990 }
    ∷ record { addr = "n1"; has_client = true; status = busy }
    ∷ record { addr = "n2"; has_client = false; status = idle }
    ∷ []

abbrev order : List ℕ
order = 0 ∷ 1 ∷ 2 ∷ []

get_idle_client-Spares_example :
    Spares 1000 (λ addr. true) nodes (get_idle_client 1000 (λ addr. true) order nodes) 1
get_idle_client-Spares_example = get_idle_client-Spares 1000 (λ addr. true) order nodes 1 refl

finds : (get_idle_client 1000 (λ addr. true) order nodes).1 ≡ some 2
unfolding get_idle_client
finds = refl

get_idle_client-Held_example :
    Held 1000 (λ addr. true) nodes (get_idle_client 1000 (λ addr. true) order nodes).0 2
get_idle_client-Held_example = get_idle_client-Held 1000 (λ addr. true) order nodes 2 finds

abbrev out : Outside
out = record { now = 1000; reachable = λ addr. true; order = order; meanwhile = λ p. p }

-- One node may be in use, and a task is to be proved that failed at the node `n2`.
abbrev fresh : System
fresh = initial nodes

abbrev failed_before : ProveTask
failed_before = record (prove_at "p0" 0 "base/0" task_state_unprocessed 1) {
  trace = record { start_ts = 900; finish_ts = 990; node_info = "n2" };
}

abbrev entered_pool : Pool
entered_pool = record { nodes = nodes; cur_prover_num = 1 }

enters : enter_on 1 fresh.pool 2 ≡ (entered_pool, on_node 2)
unfolding enter_on
enters = refl

gives_up : prove_on entered_pool failed_before 2 ≡ (entered_pool, returns failed_before)
unfolding prove_on
gives_up = refl

abbrev after_leak : System
after_leak = record fresh { pool = entered_pool; leaked = 1 }

leaks : Reach 1 fresh after_leak
leaks = later start (met failed_before 2 entered_pool entered_pool enters gives_up)

Reach-IsCounted_example : IsCounted 1 after_leak
Reach-IsCounted_example = Reach-IsCounted 1 nodes after_leak leaks

leaked-starves_example :
    (begin_split out 1 default_split entered_pool
      ≡ (entered_pool, returns (record default_split { state = task_state_unprocessed })))
    × (begin_prove out 1 failed_before entered_pool ≡ (entered_pool, returns failed_before))
    × (begin_aggregate out 1 default_agg entered_pool
        ≡ (entered_pool, returns (record default_agg { state = task_state_unprocessed })))
    × (begin_snark out 1 default_snark entered_pool ≡ (entered_pool, returns default_snark))
leaked-starves_example =
    leaked-starves 1 nodes after_leak after_leak leaks (omega arith) start out default_split
      failed_before default_agg default_snark

-- The last task, handed out while the pool is full.
abbrev last_open : Stage
last_open = record (stage_with three_proofs) {
  snark_task = record default_snark { task_id = "snark"; state = task_state_unprocessed };
}

abbrev handed_out : SnarkTask
handed_out = record default_snark {
  task_id = "snark";
  state = task_state_processing;
  trace = record default_trace { start_ts = 1000 };
}

abbrev last_taken : Stage
last_taken = record last_open { snark_task = handed_out }

takes : get_snark_task example_world last_open ≡ (last_taken, some handed_out)
unfolding get_snark_task
takes = refl

refused : begin_snark out 1 handed_out entered_pool ≡ (entered_pool, returns handed_out)
refused = begin_snark-at_limit out 1 entered_pool handed_out (omega arith)

abbrev after_reply : World
after_reply = written example_world "snark" []

answered :
    on_snark_reply example_world handed_out last_taken ≡ ok (last_taken, handed_out, after_reply)
unfolding on_snark_reply on_task write
answered = refl

snark_task_stuck_example :
    (last_taken.snark_task.state ≡ task_state_processing)
    × (last_taken.is_error ≡ false)
    × (last_taken.step ≡ last_open.step)
    × (get_snark_task after_reply last_taken ≡ (last_taken, none))
snark_task_stuck_example =
    snark_task_stuck example_world example_world after_reply after_reply last_open last_taken
      last_taken handed_out handed_out handed_out out 1 entered_pool entered_pool takes
      (omega arith) refused answered
