-- ===== src/Stage/Dispatch.antt =====
-- `Stage::dispatch`, `is_success` and `is_error`: how a stage moves from step to step.
use zkm_prover.Base.{
  String, Bool, true, false, not, ◌&&◌, ◌||◌, List, [], ◌∷◌, map, ◌==◌, if◌then◌else◌, all, keep,
}
use zkm_prover.Platform.{Result, ok, assert, ◌>>=◌, ◌>>◌, Env, World, assertion_failed}
use zkm_prover.Tasks.{Step, ProveTask, AggTask, task_state_success}
use zkm_prover.Stage.{Stage, Backend}
use zkm_prover.Stage.MakeProve.{is_split, gen_prove_task, gen_prove_task_post}
use zkm_prover.Stage.Prove.{clear_agg_child_task}
use zkm_prover.Stage.Split.{gen_split_task}
use zkm_prover.Stage.Agg.{gen_agg_tasks, is_agg_step}
use zkm_prover.Stage.Snark.{gen_snark_task}

abbrev pub prove_done : ProveTask → Bool
prove_done t = t.state == task_state_success

abbrev pub agg_done : AggTask → Bool
agg_done t = t.state == task_state_success

-- `for id in ids { self.clear_agg_child_task(&id) }`
unfoldable pub clear_all : List String → Stage → Stage
clear_all [] s = s
clear_all (id ∷ ids) s = clear_all ids (clear_agg_child_task id s)

-- The ids of the prove tasks that were done before the aggregation tasks were made.
abbrev pub successful_task_ids : Stage → List String
successful_task_ids s = map (λ t. t.task_id) (keep prove_done s.prove_tasks)

-- The tasks of the stage are fixed, once the split is done.
unfoldable pub plan : Backend → Env → World → Stage → Result (Stage × World)
plan backend env w s = do
  (s₁, w₁) ← gen_prove_task_post backend env w s
  (s₂, w₂) ←
      (if s₁.generate_task.composite_proof then ok (s₁, w₁) else gen_agg_tasks backend env w₁ s₁)
  let s₃ = record s₂ { is_tasks_gen_done = true }
  ok (clear_all (successful_task_ids s₃) s₃, w₂)

-- The second half of `Step::Prove`: all proofs, then all aggregations.
unfoldable pub advance : Env → World → Stage → Result (Stage × World)
advance env w s =
    if s.is_tasks_gen_done && all prove_done s.prove_tasks
    then (if s.generate_task.composite_proof
        then ok (record s { step = Step.end }, w)
        else (if all agg_done s.agg_tasks
            then (if is_agg_step s.generate_task.target_step
                then ok (record s { step = Step.end }, w)
                else (do
                  (s', w') ← gen_snark_task env w s
                  ok (record s' { step = Step.snark }, w')))
            else ok (s, w)))
    else ok (s, w)

unfoldable pub dispatch_prove : Backend → Env → World → Stage → Result (Stage × World)
unfolding plan advance
dispatch_prove backend env w s = do
  (s₁, w₁) ← gen_prove_task env w s
  (if s₁.split_task.state == task_state_success && not s₁.is_tasks_gen_done
      then (if is_split s₁.generate_task.target_step
          then ok (record s₁ { step = Step.end }, w₁)
          else (do (s₂, w₂) ← plan backend env w₁ s₁; advance env w₂ s₂))
      else advance env w₁ s₁)

unfoldable pub dispatch_at : Step → Backend → Env → World → Stage → Result (Stage × World)
unfolding dispatch_prove
dispatch_at Step.init backend env w s = do
  (s', w') ← gen_split_task env w s
  ok (record s' { step = Step.prove }, w')
dispatch_at Step.prove backend env w s = dispatch_prove backend env w s
dispatch_at Step.agg backend env w s = do
  assert (is_agg_step s.generate_task.from_step) assertion_failed
  (s', w') ← gen_snark_task env w s
  ok (record s' { step = Step.snark }, w')
dispatch_at Step.snark backend env w s =
    ok (if s.snark_task.state == task_state_success then record s { step = Step.end } else s, w)
dispatch_at _ backend env w s = ok (s, w)

unfoldable pub dispatch : Backend → Env → World → Stage → Result (Stage × World)
unfolding dispatch_at
dispatch backend env w s = dispatch_at s.step backend env w s

abbrev pub is_end : Step → Bool
is_end Step.end = true
is_end _ = false

unfoldable pub is_success : Stage → Bool
is_success s = is_end s.step || s.snark_task.state == task_state_success
