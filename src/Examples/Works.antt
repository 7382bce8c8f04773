-- ===== src/Examples/Works.antt =====
-- The worker and its database, on one proof.
use zkm_prover.Base.{ℕ, ◌≡◌, ◌≢◌, refl, true, none, some, [], ◌∷◌, arith}
use zkm_prover.Platform.{ok, Ensures}
use zkm_prover.Tasks.{Step, task_state_failed}
use zkm_prover.Stage.{Backend}
use zkm_prover.Database.{StageTask, Database, update_stage_task_check_at, get_stage_task}
use zkm_prover.Database.Claims.{update_stage_task_check_at_twice}
use zkm_prover.Worker.{prove, Codec, Work, round}
use zkm_prover.Worker.Finish.{status_computing, proof_result, finish}
use zkm_prover.Worker.Status.{status_of, ended_status, finish-status}
use zkm_prover.Worker.Bound.{IsBounded, stage_of, round-IsBounded}
use zkm_prover.Examples.{example_env, example_world, example_generate, prove_at}
use zkm_prover.Examples.Hands.{half_done}

abbrev codec : Codec
codec = record {
  to_json = λ task. "json";
  from_json = λ context. some example_generate;
  from_utf8 = λ bytes. some "text";
}

abbrev row : ℕ → StageTask
row check_at = record {
  id = "proof";
  status = status_computing;
  context = some "context";
  result = none;
  check_at = check_at;
  step = 2;
}

abbrev database : ℕ → Database
database check_at = record {
  is_up = true;
  stage_tasks = row check_at ∷ [];
  prove_tasks = [];
  users = [];
}

abbrev work : Work
work = record {
  id = "proof";
  stage = half_done;
  db = database 900;
  claimed_at = 900;
  check_at = 900;
}

update_stage_task_check_at_twice_example :
    update_stage_task_check_at (database 1000) "proof" 900 1001 2 ≡ some (database 1000, 0)
update_stage_task_check_at_twice_example =
    update_stage_task_check_at_twice (database 900) (database 1000) "proof" 900 1000 1001 2 2 1
      (λ e. omega arith) first_claim
  where
    first_claim :
        update_stage_task_check_at (database 900) "proof" 900 1000 2 ≡ some (database 1000, 1)
    first_claim = unfold update_stage_task_check_at in refl

round-IsBounded_example :
    Ensures
      (λ r. IsBounded (stage_of r))
      (round Backend.prover_v2 codec example_env example_world
        (some (prove (prove_at "p1" 1 "base/1" task_state_failed 2)))
        work)
round-IsBounded_example =
    round-IsBounded Backend.prover_v2 codec example_env example_world
      (some (prove (prove_at "p1" 1 "base/1" task_state_failed 2))) work (omega arith)

abbrev ended : Work
ended = record work {
  stage = record half_done {
    generate_task = record example_generate { target_step = Step.agg };
    step = Step.end;
  };
}

no_result : proof_result example_world ended.stage ≡ ok []
unfolding proof_result
no_result = refl

finish-status_example :
    (db : Database) × (finish codec example_world 5000 ended ≡ ok db)
    × (status_of (get_stage_task db "proof") ≡ some (ended_status ended.stage))
    × (ended_status ended.stage ≢ status_computing)
finish-status_example =
    finish-status codec example_world 5000 ended [] "text" refl refl no_result refl
