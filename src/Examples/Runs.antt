-- ===== src/Examples/Runs.antt =====
-- A run: the aggregation of two proofs goes out, and its node sends it back undone.
use zkm_prover.Base.{◌≡◌, refl, Option, none, some, [], ◌∷◌}
use zkm_prover.Platform.{ok}
use zkm_prover.Tasks.{AggTask, task_state_unprocessed, task_state_processing}
use zkm_prover.Tasks.Agg.{default_trace}
use zkm_prover.Tasks.Progress.{on_task}
use zkm_prover.Stage.{Stage}
use zkm_prover.Stage.Agg.{get_agg_task, on_agg_reply, answer_agg}
use zkm_prover.Stage.Waiting.Hand.{IsSafe}
use zkm_prover.Stage.Run.{Run, Reach, start, later, agg_out, agg_back}
use zkm_prover.Stage.Run.Proves.{IsRunning}
use zkm_prover.Stage.Run.Laws.{Reach-IsRunning, Reach-IsSafe}
use zkm_prover.Examples.{example_world}
use zkm_prover.Examples.Hands.{agg_of, proofs_done}

abbrev first : Stage
first = proofs_done task_state_unprocessed (none ∷ none ∷ [])

abbrev taken : AggTask
taken = record (agg_of task_state_processing (none ∷ none ∷ [])) {
  trace = record default_trace { start_ts = 1000 };
}

abbrev waiting : Stage
waiting = record first { agg_tasks = taken ∷ [] }

goes_out : get_agg_task example_world first ≡ ok (waiting, some taken)
unfolding get_agg_task
goes_out = refl

abbrev undone : AggTask
undone = record taken { state = task_state_unprocessed }

abbrev open_again : Stage
open_again = record first { agg_tasks = undone ∷ [] }

comes_back : on_agg_reply example_world undone waiting ≡ ok (open_again, undone, example_world)
unfolding on_agg_reply answer_agg on_task
comes_back = refl

abbrev last : Run
last = record { stage = open_again; proving = []; aggregating = [] }

run : Reach first last
run =
    later (later start (agg_out example_world waiting taken goes_out))
      (agg_back example_world example_world undone undone open_again [] [] refl refl comes_back)

Reach-IsRunning_example : IsRunning last
Reach-IsRunning_example = Reach-IsRunning first last (refl, refl) run

Reach-IsSafe_example :
    (s' : Stage) × (found : Option AggTask) × (get_agg_task example_world last.stage
      ≡ ok (s', found))
    × IsSafe s' found
Reach-IsSafe_example = Reach-IsSafe first last example_world (refl, refl) run
