-- ===== src/Examples/Hands.antt =====
-- Tasks handed out and replies to them.
use zkm_prover.Base.{
  ℕ, ◌+◌, ◌≡◌, refl, String, true, false, ◌||◌, Option, none, some, List, [], ◌∷◌, ◌++◌, find,
  arith,
}
use zkm_prover.Platform.{World, ok}
use zkm_prover.Tasks.{
  ProveTask, AggTask, AggregateInput, task_state_unprocessed, task_state_processing,
  task_state_success, task_state_failed,
}
use zkm_prover.Tasks.Agg.{default_agg}
use zkm_prover.Tasks.Progress.{is_open}
use zkm_prover.Stage.{Stage}
use zkm_prover.Stage.Prove.{get_prove_task, on_prove_reply, count_processing_prove_tasks}
use zkm_prover.Stage.Prove.Laws.{Takes, get_prove_task-Takes}
use zkm_prover.Stage.Prove.Replies.{
  meets, is_last_failure, found_one, on_prove_reply-is_error, on_prove_reply_retries,
  get_prove_task-count,
}
use zkm_prover.Stage.Agg.{get_agg_task, on_agg_reply}
use zkm_prover.Stage.Waiting.{IsWaiting}
use zkm_prover.Stage.Waiting.Hand.{IsSafe, IsLinked, get_agg_task-IsSafe}
use zkm_prover.Stage.Waiting.Answers.{IsSound, on_prove_reply-IsSound}
use zkm_prover.Stage.Waiting.AggAnswers.{on_agg_reply-IsSound}
use zkm_prover.Examples.{example_world, prove_at, three_proofs, stage_with}

abbrev input : String → AggregateInput
input id = record { receipt_input = []; computed_request_id = id; is_agg = false }

-- The aggregation of `p0` and `p1`, with those that it waits for.
abbrev pub agg_of : ℕ → List (Option String) → AggTask
agg_of state childs = record default_agg {
  task_id = "a0";
  state = state;
  inputs = input "p0" ∷ input "p1" ∷ [];
  childs = childs;
  is_final = true;
}

-- `p0` is done, `p1` is at a node.
abbrev pub half_done : Stage
half_done =
    record (stage_with (
      prove_at "p0" 0 "base/0" task_state_success 0
      ∷ prove_at "p1" 1 "base/1" task_state_processing 2
      ∷ [])) { agg_tasks = agg_of task_state_unprocessed (none ∷ some "p1" ∷ []) ∷ [] }

abbrev pub proofs_done : ℕ → List (Option String) → Stage
proofs_done state childs =
    record (stage_with (
      prove_at "p0" 0 "base/0" task_state_success 0
      ∷ prove_at "p1" 1 "base/1" task_state_success 2
      ∷ [])) { agg_tasks = agg_of state childs ∷ [] }

abbrev reply : ℕ → ProveTask
reply state = prove_at "p1" 1 "base/1" state 2

get_prove_task-Takes_example :
    Takes example_world three_proofs
      (get_prove_task example_world (stage_with three_proofs)).0.prove_tasks
      (get_prove_task example_world (stage_with three_proofs)).1
get_prove_task-Takes_example = get_prove_task-Takes example_world (stage_with three_proofs)

get_prove_task-count_example :
    count_processing_prove_tasks (get_prove_task example_world (stage_with three_proofs)).0
    ≡ count_processing_prove_tasks (stage_with three_proofs)
      + found_one (get_prove_task example_world (stage_with three_proofs)).1
get_prove_task-count_example = get_prove_task-count example_world (stage_with three_proofs)

on_prove_reply-is_error_example :
    (on_prove_reply example_world (reply task_state_failed) half_done).0.is_error ≡ (
      is_last_failure
        (reply task_state_failed)
        (find (meets (reply task_state_failed)) half_done.prove_tasks)
      || half_done.is_error)
on_prove_reply-is_error_example =
    on_prove_reply-is_error example_world (reply task_state_failed) half_done

on_prove_reply_retries_example :
    (t' : ProveTask) × ((on_prove_reply example_world
        (reply task_state_failed)
        half_done).0.prove_tasks
      ≡ (prove_at "p0" 0 "base/0" task_state_success 0 ∷ []) ++ t' ∷ [])
    × (is_open t'.state ≡ true)
    × (t'.failure_count ≡ 3)
    × (t'.trace.node_info ≡ "")
    × ((on_prove_reply example_world (reply task_state_failed) half_done).0.is_error ≡ false)
on_prove_reply_retries_example =
    on_prove_reply_retries example_world (reply task_state_failed) half_done
      (prove_at "p0" 0 "base/0" task_state_success 0 ∷ []) []
      (prove_at "p1" 1 "base/1" task_state_processing 2) refl refl refl refl (omega arith)

get_agg_task-IsSafe_example :
    (s' : Stage) × (found : Option AggTask) × (get_agg_task example_world
        (proofs_done task_state_unprocessed (none ∷ none ∷ []))
      ≡ ok (s', found))
    × IsSafe s' found
    × IsWaiting s'.prove_tasks s'.agg_tasks
    × IsLinked s'.prove_tasks s'.agg_tasks
get_agg_task-IsSafe_example =
    get_agg_task-IsSafe example_world (proofs_done task_state_unprocessed (none ∷ none ∷ [])) refl
      refl

on_prove_reply-IsSound_example :
    IsSound (on_prove_reply example_world (reply task_state_success) half_done).0
on_prove_reply-IsSound_example =
    on_prove_reply-IsSound example_world (reply task_state_success) half_done (refl, refl)
      (λ e. refl)

on_agg_reply-IsSound_example :
    (s' : Stage) × (src' : AggTask) × (w' : World) × (on_agg_reply example_world
        (agg_of task_state_success (none ∷ none ∷ []))
        (proofs_done task_state_processing (none ∷ none ∷ []))
      ≡ ok (s', src', w'))
    × IsSound s'
on_agg_reply-IsSound_example =
    on_agg_reply-IsSound example_world (agg_of task_state_success (none ∷ none ∷ []))
      (proofs_done task_state_processing (none ∷ none ∷ [])) refl (refl, refl) (λ e. refl)
