-- ===== src/Service/Generate.antt =====
-- `StageServiceSVC::generate_proof`, with `GenerateTask::new`.
use Prim.Native.String.{String, ◌++◌ as ◌<>◌}
use zkm_prover.Base.{
  ℕ, Bool, true, false, ◌||◌, Option, none, some, [], ◌∷◌, ◌++◌, length, ltb, ◌==◌, if◌then◌else◌,
}
use zkm_prover.Platform.{join}
use zkm_prover.Tasks.{Step, ProverVersion, GenerateTask}
use zkm_prover.Stage.{Backend}
use zkm_prover.Database.{StageTask, Database, insert_stage_task}
use zkm_prover.Worker.Finish.{status_computing}
use zkm_prover.Config.{RuntimeConfig}
use zkm_prover.Service.{
  GenerateProofRequest, GenerateProofResponse, Outside, M, ◌>>=◌, ◌>>◌, pure, Outcome, go, stop,
  Reply, responded, internal, ServiceState,
}
use zkm_prover.Service.Checks.{Admission, admit}
use zkm_prover.Service.Inputs.{
  choose_elf, Inputs, store_inputs, make_work_dirs, block_no_of, suffix,
}

-- No more nodes than there are; 0 stands for all.
unfoldable pub prover_num : RuntimeConfig → ℕ → ℕ
prover_num config max_prover_num =
    let count = length config.prover_addrs in
    if max_prover_num == 0 || ltb count max_prover_num then count else max_prover_num

abbrev output_path_of : Backend → String → String
output_path_of Backend.prover dir = join (join dir "output_stream") "output_stream"
output_path_of Backend.prover_v2 dir = ""

abbrev pub prover_version : Backend → ProverVersion
prover_version Backend.prover = ProverVersion.zkm
prover_version Backend.prover_v2 = ProverVersion.zkm2

-- `GenerateTask::new` on the paths that `generate_proof` makes.
unfoldable pub new_task :
    Backend
    → ℕ
    → String
    → GenerateProofRequest
    → Admission
    → String × String
    → Inputs
    → GenerateTask
new_task backend max_prover_num dir req admission elf inputs = record {
  program_id = elf.1;
  base_dir = dir;
  proof_id = req.proof_id;
  version = prover_version backend;
  elf_path = elf.0;
  seg_path = join dir "segment";
  prove_path = join dir "prove";
  agg_path = join dir "aggregate";
  snark_path = join (join dir "snark") "proof_with_public_inputs.json";
  public_input_path = inputs.public_input;
  private_input_path = inputs.private_input;
  output_stream_path = output_path_of backend dir;
  block_no = some (block_no_of req);
  seg_size = req.seg_size;
  max_prover_num = max_prover_num;
  target_step = admission.target_step;
  from_step = admission.from_step;
  single_node = req.single_node;
  composite_proof = req.composite_proof;
  receipt_inputs_path = inputs.receipt_inputs;
  receipts_path = inputs.receipts;
  program = none;
}

abbrev pub proof_dir : RuntimeConfig → String → String
proof_dir config proof_id = join (join config.base_dir "proof") proof_id

-- All that comes before the database: the user and the task of a request that is taken.
unfoldable pub prepare :
    Outside → Backend → RuntimeConfig → Database → GenerateProofRequest → M (String × GenerateTask)
unfolding prover_num new_task
prepare outside backend config db req = do
  admission ← admit outside backend db req
  elf ← choose_elf outside config.base_dir admission.from_step req
  inputs ← store_inputs outside admission.from_step (proof_dir config req.proof_id) req
  make_work_dirs backend admission.from_step (proof_dir config req.proof_id)
  pure (
    admission.user,
    new_task backend (prover_num config req.max_prover_num) (proof_dir config req.proof_id) req
        admission elf inputs,
  )

-- `{fileserver_url}/{proof_id}/{file}`, and nothing without a file server.
abbrev pub file_url : Option String → String → String → String
file_url none proof_id file = ""
file_url (some server) proof_id file = join server (join proof_id file)

abbrev pub snark_file : String
snark_file = "snark/proof_with_public_inputs.json"

abbrev pub stark_file : String
stark_file = "wrap/proof_with_public_inputs.json"

-- Only the build with the feature prover tells where a proof will be, and only of a whole proof.
abbrev proof_url : Backend → Option String → Step → String → String → String
proof_url Backend.prover server Step.snark proof_id file = file_url server proof_id file
proof_url backend server step proof_id file = ""

abbrev values_url : Backend → Option String → Step → String → String
values_url backend server Step.split proof_id = ""
values_url backend server step proof_id =
    file_url server proof_id ("wrap/public_values." <> suffix backend)

unfoldable pub accepted : Backend → RuntimeConfig → GenerateTask → GenerateProofResponse
accepted backend config task = record {
  status = status_computing;
  error_message = "";
  proof_id = task.proof_id;
  snark_proof_url =
      proof_url backend config.fileserver_url task.target_step task.proof_id snark_file;
  stark_proof_url =
      proof_url backend config.fileserver_url task.target_step task.proof_id stark_file;
  output_stream = [];
  public_values_url = values_url backend config.fileserver_url task.target_step task.proof_id;
}

-- The row that the queue takes.
abbrev pub stage_task : String → String → StageTask
stage_task proof_id context = record {
  id = proof_id;
  status = status_computing;
  context = some context;
  result = none;
  check_at = 0;
  step = 0;
}

-- The sending, once the row is in the database.
unfoldable pub send : GenerateProofResponse → StageTask → ServiceState → Bool → ServiceState × Reply
send response task s true = (record s { queue = s.queue ++ task ∷ [] }, responded response)
send response task s false = (s, internal)

unfoldable pub insert :
    GenerateProofResponse → StageTask → ServiceState → Option Database → ServiceState × Reply
unfolding send
insert response task s none = (s, internal)
insert response task s (some db) = send response task (record s { db = db }) s.has_receiver

unfoldable pub insert_and_send :
    GenerateProofResponse
    → String
    → GenerateTask
    → ServiceState
    → Option String
    → ServiceState × Reply
unfolding insert
insert_and_send response user task s none = (s, internal)
insert_and_send response user task s (some context) =
    insert response (stage_task task.proof_id context) s
      (insert_stage_task s.db task.proof_id user status_computing context)

unfoldable pub enqueue :
    Outside
    → Backend
    → RuntimeConfig
    → ServiceState
    → Outcome (String × GenerateTask)
    → ServiceState × Reply
unfolding insert_and_send accepted
enqueue outside backend config s (stop reply) = (s, reply)
enqueue outside backend config s (go (user, task)) =
    insert_and_send (accepted backend config task) user task s (outside.to_context task)

unfoldable pub generate_proof :
    Outside → Backend → RuntimeConfig → GenerateProofRequest → ServiceState → ServiceState × Reply
generate_proof outside backend config req s =
    let (w, prepared) = prepare outside backend config s.db req s.world in
    enqueue outside backend config (record s { world = w }) prepared
