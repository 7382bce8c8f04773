-- ===== src/Examples/Requests.antt =====
-- A request for a proof, from its acceptance to its end.
use zkm_prover.Base.{
  ◌≡◌, refl, ◌↔◌, Bool, true, false, none, some, List, [], ◌∷◌, str_eq, if◌then◌else◌,
}
use zkm_prover.Platform.{ok, World, Ensures}
use zkm_prover.Files.{
  parse_s3_path, object_path, s3_create_dir_all, make_dirs, s3_exist, s3_write_file, split_slash,
  write_file, create_dir_all,
}
use zkm_prover.Files.Paths.{has_no_slash, parse_s3_path_iff}
use zkm_prover.Files.Dirs.{AllMade, dir_paths}
use zkm_prover.Files.Total.{s3_create_dir_all-makes}
use zkm_prover.Stage.{Backend}
use zkm_prover.Stage.Segments.{show}
use zkm_prover.Database.{StageTask, get_user, insert_stage_task}
use zkm_prover.Worker.Finish.{status_computing}
use zkm_prover.Config.{default_config}
use zkm_prover.Service.{
  GenerateProofRequest, GenerateProofResponse, Outside, responded, ServiceState, put, make_dir,
}
use zkm_prover.Service.Checks.{
  admit, check_seg_size, check_user, check_from_step, check_target_step,
}
use zkm_prover.Service.Inputs.{choose_elf, store_inputs, make_work_dirs}
use zkm_prover.Service.Generate.{prepare, enqueue, accepted, stage_task, generate_proof}
use zkm_prover.Service.Holds.{IsRefusal}
use zkm_prover.Service.Accepts.{Settles, IsLeft, generate_proof-Settles}
use zkm_prover.Service.Overwrites.{generate_proof-overwrites}
use zkm_prover.Examples.{example_world}

parse_s3_path_iff_example :
    (parse_s3_path "s3://bucket/proof/7" ≡ ok ("bucket", "proof/7"))
    ↔ (("s3://bucket/proof/7" ≡ object_path "bucket" "proof/7") × (has_no_slash "bucket" ≡ true))
parse_s3_path_iff_example = parse_s3_path_iff "s3://bucket/proof/7" "bucket" "proof/7"

-- An object is there, and no question is answered.
abbrev silent_store : World
silent_store = record example_world {
  objects = λ path. if str_eq path "s3://bucket/proof" then some (5 ∷ []) else none;
  answers = λ path. false;
}

s3_create_dir_all-makes_example :
    (r : World × Bool) × (s3_create_dir_all silent_store (object_path "bucket" "proof//7") ≡ ok r)
    × AllMade silent_store (dir_paths "s3://bucket" (split_slash "proof//7")) r
s3_create_dir_all-makes_example =
    s3_create_dir_all-makes silent_store "bucket" "proof//7" (unfold has_no_slash in refl)

-- That object is written over.
emptied :
    Ensures
      (λ r. r.0.objects "s3://bucket/proof" ≡ some [])
      (s3_create_dir_all silent_store "s3://bucket/proof//7")
unfolding s3_create_dir_all parse_s3_path split_slash make_dirs s3_exist s3_write_file
emptied = refl

-- Empty parts of a key are passed over.
dirs_of_key :
    dir_paths "s3://bucket" (split_slash "proof//7")
    ≡ "s3://bucket/proof" ∷ "s3://bucket/proof/7" ∷ []
unfolding split_slash
dirs_of_key = refl

abbrev pub outside : Outside
outside = record {
  recover = λ signature message. some "0xA";
  checksum = λ address. some address;
  sha256_hex = λ content. "id";
  serialize = λ receipts. 9 ∷ [];
  to_context = λ task. some "context";
}

abbrev pub request : GenerateProofRequest
request = record {
  proof_id = "proof";
  elf_data = 1 ∷ 2 ∷ [];
  block_data = [];
  block_no = none;
  seg_size = 65536;
  elf_id = none;
  signature = "signed";
  public_input_stream = 3 ∷ [];
  private_input_stream = [];
  target_step = none;
  composite_proof = false;
  receipt_inputs = [];
  receipts = [];
  from_step = none;
  single_node = false;
  max_prover_num = 0;
}

abbrev pub service_with : List StageTask → ServiceState
service_with rows = record {
  world = example_world;
  db = record { is_up = true; stage_tasks = rows; prove_tasks = []; users = "A" ∷ [] };
  queue = [];
  has_receiver = true;
}

-- In the build whose segments have bounds.
abbrev Settled : ServiceState → Type 0
Settled s =
    let (s', reply) = generate_proof outside Backend.prover default_config request s in
    Settles outside Backend.prover default_config request s s' reply

generate_proof-Settles_example : Settled (service_with [])
generate_proof-Settles_example =
    generate_proof-Settles outside Backend.prover default_config request (service_with [])

abbrev known : StageTask
known = stage_task "proof" "before"

generate_proof-overwrites_example :
    let s = service_with (known ∷ []) in
    let (s', reply) = generate_proof outside Backend.prover_v2 default_config request s in
    let (s₀, reply₀) =
      generate_proof outside Backend.prover_v2 default_config request
        (record s { db = (service_with []).db }) in
    (s'.world ≡ s₀.world)
    × IsRefusal reply
    × IsLeft outside Backend.prover_v2 default_config request s s'
generate_proof-overwrites_example =
    generate_proof-overwrites outside Backend.prover_v2 default_config request
      (service_with (known ∷ [])) (service_with []).db refl (λ address. unfold get_user in refl)

abbrev pub response : GenerateProofResponse
response = record {
  status = status_computing;
  error_message = "";
  proof_id = "proof";
  snark_proof_url = "";
  stark_proof_url = "";
  output_stream = [];
  public_values_url = "";
}

pub taken :
    (generate_proof outside Backend.prover_v2 default_config request (service_with [])).1
    ≡ responded response
unfolding generate_proof prepare admit check_seg_size check_user check_from_step check_target_step
    get_user choose_elf store_inputs make_work_dirs put make_dir enqueue accepted show write_file
    create_dir_all insert_stage_task
taken = refl

pub taken_db :
    (generate_proof outside Backend.prover_v2 default_config request (service_with [])).0.db
    ≡ (service_with (stage_task "proof" "context" ∷ [])).db
unfolding generate_proof prepare admit check_seg_size check_user check_from_step check_target_step
    get_user choose_elf store_inputs make_work_dirs put make_dir enqueue accepted show write_file
    create_dir_all insert_stage_task
taken_db = refl
