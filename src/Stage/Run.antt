-- ===== src/Stage/Run.antt =====
-- A proof at work, once its tasks are fixed: the stage, and the ids of the tasks that are at the
-- nodes. Tasks go out by `get_prove_task` and `get_agg_task`, and come back in any order, with any
-- outcome, by `on_prove_task` and `on_agg_task`; `dispatch` moves the stage in between.
pub mod Owed
pub mod Steady
pub mod Proves
pub mod Aggs
pub mod Laws
use zkm_prover.Base.{ℕ, ◌≡◌, String, Bool, true, ◌&&◌, ◌==◌, some, List, [], ◌∷◌, ◌++◌, str_eq}
use zkm_prover.Stage.Dispatch.{dispatch}
use zkm_prover.Platform.{Env, World, Result, ok}
use zkm_prover.Tasks.{ProveTask, AggTask}
use zkm_prover.Stage.{Stage, Backend}
use zkm_prover.Stage.Prove.{get_prove_task, on_prove_reply}
use zkm_prover.Stage.Agg.{get_agg_task, on_agg_reply}

pub record Run : Type 0 where
  pub stage : Stage
  pub proving : List String
  pub aggregating : List String

pub data Move (r : Run) : Run → Type 0 where
  prove_out :
      (w : World) (s : Stage) (t : ProveTask)
      → get_prove_task w r.stage ≡ (s, some t)
      → Move r (record r { stage = s; proving = t.task_id ∷ r.proving })
  prove_back :
      (w : World) (src : ProveTask) (front back : List String)
      → r.proving ≡ front ++ src.task_id ∷ back
      → Move r (record r { stage = (on_prove_reply w src r.stage).0; proving = front ++ back })
  agg_out :
      (w : World) (s : Stage) (t : AggTask)
      → get_agg_task w r.stage ≡ ok (s, some t)
      → Move r (record r { stage = s; aggregating = t.task_id ∷ r.aggregating })
  agg_back :
      (w w' : World) (src src' : AggTask) (s : Stage) (front back : List String)
      → r.aggregating ≡ front ++ src.task_id ∷ back
      → w.writable r.stage.generate_task.snark_path ≡ true
      → on_agg_reply w src r.stage ≡ ok (s, src', w')
      → Move r (record r { stage = s; aggregating = front ++ back })
  moves_on :
      (backend : Backend) (env : Env) (w w' : World) (s : Stage)
      → r.stage.is_tasks_gen_done ≡ true
      → dispatch backend env w r.stage ≡ ok (s, w')
      → Move r (record r { stage = s })

-- The runs that start with a stage of which nothing is out.
pub data Reach (s : Stage) : Run → Type 0 where
  start : Reach s (record { stage = s; proving = []; aggregating = [] })
  later : {q r : Run} → Reach s q → Move q r → Reach s r
