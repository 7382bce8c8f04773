-- ===== src/Stage/Run/Laws.antt =====
-- In every run the tasks wait as they should, whatever comes back and in whatever order.
use zkm_prover.Base.{◌≡◌, Option, arith, true, ap}
use zkm_prover.Platform.{World, ok, Env, Ensures-ok}
use zkm_prover.Tasks.{AggTask}
use zkm_prover.Stage.{Stage, Backend}
use zkm_prover.Stage.Agg.{get_agg_task}
use zkm_prover.Stage.Waiting.Hand.{IsSafe, get_agg_task-IsSafe}
use zkm_prover.Stage.Waiting.Answers.{IsSound, IsSound-of}
use zkm_prover.Stage.Dispatch.{dispatch}
use zkm_prover.Stage.Run.Steady.{Steady, dispatch-Steady}
use zkm_prover.Stage.Run.Owed.{proves_at, aggs_at}
use zkm_prover.Stage.Run.{
  Run, Move, prove_out, prove_back, agg_out, agg_back, moves_on, Reach, start, later,
}
use zkm_prover.Stage.Run.Proves.{IsRunning, prove_out-IsRunning, prove_back-IsRunning}
use zkm_prover.Stage.Run.Aggs.{agg_out-IsRunning, agg_back-IsRunning}

moves_on-IsRunning :
    (backend : Backend) (env : Env) (w w' : World) (s : Stage) (r : Run)
    → r.stage.is_tasks_gen_done ≡ true
    → dispatch backend env w r.stage ≡ ok (s, w')
    → IsRunning r
    → IsRunning (record r { stage = s })
moves_on-IsRunning backend env w w' s r fixed e h =
    let (p, a) =
      Ensures-ok (Steady r.stage) (dispatch backend env w r.stage) (s, w')
        (dispatch-Steady backend env w r.stage fixed) e in
    record {
      sound = IsSound-of r.stage.prove_tasks r.stage.agg_tasks s p a h.sound.0 h.sound.1;
      proving = λ id.
          let b = h.proving id in
          let c : proves_at id s.prove_tasks ≡ proves_at id r.stage.prove_tasks =
            ap (proves_at id) p in
          omega arith;
      aggregating = λ id.
          let b = h.aggregating id in
          let c : aggs_at id s.agg_tasks ≡ aggs_at id r.stage.agg_tasks = ap (aggs_at id) a in
          omega arith;
    }

Move-IsRunning : {r t : Run} → IsRunning r → Move r t → IsRunning t
Move-IsRunning {r} h (prove_out w s t e) = prove_out-IsRunning w r s t e h
Move-IsRunning {r} h (prove_back w src front back e) = prove_back-IsRunning w src front back r e h
Move-IsRunning {r} h (agg_out w s t e) = agg_out-IsRunning w r s t e h
Move-IsRunning {r} h (agg_back w w' src src' s front back e can_write f) =
    agg_back-IsRunning w w' src src' s front back r e can_write f h
Move-IsRunning {r} h (moves_on backend env w w' s fixed e) =
    moves_on-IsRunning backend env w w' s r fixed e h

-- From a sound stage of which nothing is out, every run keeps the stage sound, whatever the
-- replies say, in whatever order they come and wherever dispatch runs in between once the tasks
-- are fixed, and each task that is at a node is being processed.
pub Reach-IsRunning : (s : Stage) (r : Run) → IsSound s → Reach s r → IsRunning r
Reach-IsRunning s r sound start = record {
  sound = sound;
  proving = λ id. omega arith;
  aggregating = λ id. omega arith;
}
Reach-IsRunning s r sound (later {q} before move) =
    Move-IsRunning (Reach-IsRunning s q sound before) move

-- In every run from a sound stage of which nothing is out, with replies of any outcome in any
-- order and dispatch in between, get_agg_task does not panic, and hands out nothing or a task all
-- of whose inputs have succeeded.
pub Reach-IsSafe :
    (s : Stage) (r : Run) (w : World)
    → IsSound s
    → Reach s r
    → (s' : Stage) × (found : Option AggTask) × (get_agg_task w r.stage ≡ ok (s', found))
      × IsSafe s' found
Reach-IsSafe s r w sound run =
    let (waiting, linked) = (Reach-IsRunning s r sound run).sound in
    let (s', found, e, safe, _, _) = get_agg_task-IsSafe w r.stage waiting linked in
    (s', found, e, safe)
