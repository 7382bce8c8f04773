-- ===== src/Examples/Answers.antt =====
-- What a user is told of the proof of `Requests`, and of one that has ended.
use zkm_prover.Base.{
  ◌≡◌, refl, ap, ◌∙◌, arith, ◌==◌, if◌then◌else◌, ◌⊎◌, ◌↔◌, Option, none, some, [], ◌∷◌, String,
}
use zkm_prover.Platform.{Bytes, ok, World, read}
use zkm_prover.Tasks.{GenerateTask}
use zkm_prover.Stage.{Backend}
use zkm_prover.Database.{
  StageTask, Database, get_stage_task, get_prove_task_infos, update_stage_task,
  update_stage_task_check_at,
}
use zkm_prover.Worker.{task_itype_split, Codec, Work}
use zkm_prover.Worker.Finish.{status_success, proof_result, finish}
use zkm_prover.Config.{default_config}
use zkm_prover.Service.Generate.{generate_proof, stage_task}
use zkm_prover.Service.Status.{GetStatusResponse, Decoder, no_status, get_status, read_outputs}
use zkm_prover.Service.Reports.{IsComputing}
use zkm_prover.Service.Ends.{get_status-success, get_status-generate_proof, get_status-finish}
use zkm_prover.Examples.{example_world, example_generate, stage_with}
use zkm_prover.Examples.Requests.{outside, request, service_with, response, taken, taken_db}

abbrev context_of : GenerateTask
context_of = record example_generate { output_stream_path = "" }

abbrev decoder : Decoder
decoder = record {
  from_json = λ text. some context_of;
  split_from_json = λ text. none;
  into_bytes = λ text. 5 ∷ [];
}

get_status-success_example : ((no_status "other").status ≡ status_success) ↔ (
    (get_stage_task (service_with []).db "other" ≡ none)
    ⊎ ((task : StageTask) × (get_stage_task (service_with []).db "other" ≡ some task)
        × (task.status ≡ status_success)))
get_status-success_example =
    get_status-success decoder Backend.prover_v2 default_config example_world (service_with []).db
      "other" (no_status "other") (unfold get_status get_stage_task in refl)

get_status-generate_proof_example :
    let (s', reply) =
      generate_proof outside Backend.prover_v2 default_config request (service_with []) in
    IsComputing (get_status decoder Backend.prover_v2 default_config example_world s'.db "proof")
get_status-generate_proof_example =
    get_status-generate_proof decoder Backend.prover_v2 default_config outside request
      (service_with []) response example_world taken refl
      (
        some [],
        ap (λ db. get_prove_task_infos decoder.split_from_json db "proof" task_itype_split) taken_db
            ∙ (unfold get_prove_task_infos in refl),
      )

-- A proof that has ended, with its snark in its file.
abbrev proved_world : World
proved_world = record example_world { files = λ path. some (5 ∷ []) }

-- One text, and its bytes.
abbrev five : Bytes → Option String
five (b ∷ []) = if b == 5 then some "five" else none
five _ = none

five-into_bytes :
    (bytes : Bytes) (text : String) → five bytes ≡ some text → decoder.into_bytes text ≡ bytes
five-into_bytes [] text h = cc
five-into_bytes (b ∷ []) text h = ground arith
five-into_bytes (b ∷ c ∷ bytes) text h = cc

abbrev codec : Codec
codec = record { to_json = λ task. "json"; from_json = λ text. some context_of; from_utf8 = five }

abbrev work : Work
work = record {
  id = "proof";
  stage = stage_with [];
  db = (service_with (stage_task "proof" "context" ∷ [])).db;
  claimed_at = 0;
  check_at = 0;
}

abbrev ended_db : Database
ended_db =
    (service_with (
      (record (stage_task "proof" "context") {
        status = status_success;
        result = some "five";
        check_at = 77;
        step = 2;
      })
      ∷ [])).db

get_status-finish_example :
    (r : GetStatusResponse) × (get_status decoder Backend.prover_v2 default_config proved_world
        ended_db "proof"
      ≡ ok r)
    × (r.status ≡ status_success)
    × (read proved_world "snark" ≡ some r.proof_with_public_inputs)
    × (r.output_stream ≡ [])
get_status-finish_example =
    get_status-finish decoder Backend.prover_v2 default_config codec proved_world proved_world 77
      work ended_db (stage_task "proof" "context") "context" context_of ([], []) five-into_bytes
      (unfold finish proof_result read update_stage_task update_stage_task_check_at in refl) refl
      refl (unfold get_stage_task in refl) refl refl refl refl (unfold read_outputs in refl)
      (some [], unfold get_prove_task_infos in refl)
