-- ===== src/Stage/Aggregate/Root.antt =====
-- The tasks that `gen_agg_tasks` leaves in the stage: their order and their root.
use zkm_prover.Base.{◌≤◌, ◌≡◌, true, some, List, [], ◌∷◌, ◌++◌, length, but_last, arith, All}
use zkm_prover.Platform.{Bytes, Env, World, ok, read, join}
use zkm_prover.Tasks.{AggTask}
use zkm_prover.Stage.{Stage}
use zkm_prover.Stage.Aggregate.{normal, deferred, tree, mark_final, gen_agg_tasks}
use zkm_prover.Stage.Aggregate.Tree.{prove_ids, agg_ids, consumed, consumed-tree}
use zkm_prover.Stage.Aggregate.Shape.{
  consumed-mark_final, but_last-mark_final, length-first_layer, IsInner, IsInner-tree,
  mark_final-root, length-tree,
}

-- The stage has its tree: with `vk.bin` there, the call succeeds.
abbrev pub planned : Env → Bytes → World → Stage → Stage
planned env vk w s = record s { agg_tasks = mark_final (tree env vk w s.prove_tasks).tasks }

module _ (env : Env) (w : World) (s : Stage) {vk : Bytes} (first_plan : s.agg_tasks ≡ [])
    (some_proof : 1 ≤ length s.prove_tasks)
    (key : read w (join s.generate_task.base_dir "vk.bin") ≡ some vk) where
  pub gen_agg_tasks-planned : (w' : World) × (gen_agg_tasks env w s ≡ ok (planned env vk w s, w'))
  unfolding gen_agg_tasks
  gen_agg_tasks-planned = ((tree env vk w s.prove_tasks).world, rw (key, first_plan))

  -- With vk.bin there, a prove task at least and no aggregation task yet, gen_agg_tasks
  -- (prover_v2) succeeds, and the inputs of its tasks, in order, are the ids of the prove tasks,
  -- the deferred ones last, and then the ids of its own tasks but for the last one, so that each
  -- of them is asked for once.
  pub gen_agg_tasks-consumed :
      (s' : Stage) × (w' : World) × (gen_agg_tasks env w s ≡ ok (s', w'))
      × (consumed s'.agg_tasks
          ≡ prove_ids (normal s.prove_tasks ++ deferred s.prove_tasks)
            ++ agg_ids (but_last s'.agg_tasks))
  gen_agg_tasks-consumed =
      let ts : List AggTask = (tree env vk w s.prove_tasks).tasks in
      (
        planned env vk w s,
        gen_agg_tasks-planned.0,
        gen_agg_tasks-planned.1,
        rw (consumed-mark_final ts, but_last-mark_final ts)
            (consumed-tree env vk w s.prove_tasks
              (omega (arith, length-first_layer env vk w s.prove_tasks))),
      )

  -- Under the conditions of gen_agg_tasks-consumed the last task that gen_agg_tasks (prover_v2)
  -- makes is final, and no other one is.
  pub gen_agg_tasks-root :
      (s' : Stage) × (w' : World) × (inner : List AggTask) × (root : AggTask) × (gen_agg_tasks env w
          s
        ≡ ok (s', w'))
      × (s'.agg_tasks ≡ inner ++ root ∷ [])
      × All IsInner inner
      × (root.is_final ≡ true)
  gen_agg_tasks-root =
      let ts : List AggTask = (tree env vk w s.prove_tasks).tasks in
      let (root, e, f) = mark_final-root ts (omega (arith, length-tree env vk w s.prove_tasks)) in
      (
        planned env vk w s,
        gen_agg_tasks-planned.0,
        but_last ts,
        root,
        gen_agg_tasks-planned.1,
        e,
        IsInner-tree env vk w s.prove_tasks,
        f,
      )
