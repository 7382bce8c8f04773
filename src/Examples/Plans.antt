-- ===== src/Examples/Plans.antt =====
-- The aggregation of three segments, by both builds.
use zkm_prover.Base.{◌+◌, ◌≡◌, refl, true, some, List, [], ◌∷◌, ◌++◌, but_last, length, All, arith}
use zkm_prover.Platform.{World, ok, read, is_s3_path, join}
use zkm_prover.Tasks.{AggTask}
use zkm_prover.Stage.{Stage, Backend, default_split}
use zkm_prover.Stage.Pairwise as Pairwise
use zkm_prover.Stage.Pairwise.Count.{gen_agg_tasks-length}
use zkm_prover.Stage.Pairwise.Root.{last?, IsBalanced, gen_agg_tasks-IsBalanced}
use zkm_prover.Stage.Aggregate.{gen_agg_tasks, normal, deferred}
use zkm_prover.Stage.Aggregate.Tree.{prove_ids, agg_ids, consumed}
use zkm_prover.Stage.Aggregate.Shape.{IsInner}
use zkm_prover.Stage.Aggregate.Root.{gen_agg_tasks-consumed, gen_agg_tasks-root}
use zkm_prover.Stage.MakeProve.{gen_prove_task_post, tasks_from}
use zkm_prover.Stage.Dispatch.{plan}
use zkm_prover.Stage.Waiting.Answers.{IsSound}
use zkm_prover.Stage.Waiting.Start.{plan-IsSound}
use zkm_prover.Examples.{example_env, example_world, three_proofs, stage_with}

key :
    read example_world (join (stage_with three_proofs).generate_task.base_dir "vk.bin")
    ≡ some (7 ∷ [])
unfolding read is_s3_path
key = refl

gen_agg_tasks-consumed_example :
    (s' : Stage) × (w' : World) × (gen_agg_tasks example_env example_world (stage_with three_proofs)
      ≡ ok (s', w'))
    × (consumed s'.agg_tasks
        ≡ prove_ids (normal three_proofs ++ deferred three_proofs)
          ++ agg_ids (but_last s'.agg_tasks))
gen_agg_tasks-consumed_example =
    gen_agg_tasks-consumed example_env example_world (stage_with three_proofs) {vk = 7 ∷ []} refl
      (omega arith) key

gen_agg_tasks-root_example :
    (s' : Stage) × (w' : World) × (inner : List AggTask) × (root : AggTask) × (gen_agg_tasks
        example_env example_world
        (stage_with three_proofs)
      ≡ ok (s', w'))
    × (s'.agg_tasks ≡ inner ++ root ∷ [])
    × All IsInner inner
    × (root.is_final ≡ true)
gen_agg_tasks-root_example =
    gen_agg_tasks-root example_env example_world (stage_with three_proofs) {vk = 7 ∷ []} refl
      (omega arith) key

gen_agg_tasks-length_example :
    (s' : Stage) × (w' : World) × (Pairwise.gen_agg_tasks example_env example_world
        (stage_with three_proofs)
      ≡ ok (s', w'))
    × (length s'.agg_tasks + 1 ≡ 4)
gen_agg_tasks-length_example =
    gen_agg_tasks-length example_env example_world (stage_with three_proofs) refl (omega arith)

gen_agg_tasks-IsBalanced_example :
    (s' : Stage) × (w' : World) × (root : AggTask) × (Pairwise.gen_agg_tasks example_env
        example_world
        (stage_with three_proofs)
      ≡ ok (s', w'))
    × (last? s'.agg_tasks ≡ some root)
    × (root.is_final ≡ true)
    × IsBalanced "p2" three_proofs s'.agg_tasks root
gen_agg_tasks-IsBalanced_example =
    gen_agg_tasks-IsBalanced "p2" example_env example_world (stage_with three_proofs) refl
      (omega arith)

-- The split is done, and there is no deferred proof.
abbrev split_stage : Stage
split_stage = record (stage_with three_proofs) {
  split_task = record default_split { total_segments = 3 };
}

abbrev listed_world : World
listed_world = record example_world { dirs = λ path. some [] }

all_there :
    gen_prove_task_post Backend.prover_v2 example_env listed_world split_stage
    ≡ ok (split_stage, listed_world)
unfolding gen_prove_task_post tasks_from
all_there = refl

listed_key : read listed_world (join split_stage.generate_task.base_dir "vk.bin") ≡ some (7 ∷ [])
unfolding read is_s3_path
listed_key = refl

plan-IsSound_example :
    (s' : Stage) × (w' : World) × (plan Backend.prover_v2 example_env listed_world split_stage
      ≡ ok (s', w'))
    × IsSound s'
plan-IsSound_example =
    plan-IsSound example_env listed_world listed_world split_stage split_stage (7 ∷ []) all_there
      refl refl (omega arith) listed_key refl
