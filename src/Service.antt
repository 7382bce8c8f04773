-- ===== src/Service.antt =====
-- proof-service/src/stage/stage_service.rs: the server that takes proofs in and tells how they
-- stand, with the messages of proto/src/proto/stage/v1/stage.proto. The children model its calls.
pub mod Checks
pub mod Inputs
pub mod Generate
pub mod Holds
pub mod Admits
pub mod Writes
pub mod Prepares
pub mod Accepts
pub mod Status
pub mod Overwrites
pub mod Reports
pub mod Ends
use Prim.Native.String.{String, ◌++◌ as ◌<>◌}
use zkm_prover.Base.{ℕ, Bool, true, false, Option, none, some, List, [], if◌then◌else◌}
use zkm_prover.Platform.{Bytes, Panic, Result, panic, ok, World}
use zkm_prover.Tasks.{BlockFileItem, GenerateTask}
use zkm_prover.Files.{write_file, create_dir_all}
use zkm_prover.Database.{StageTask, Database}

-- The `i32` of a step is a natural number here: the negative ones are refused like any other that
-- is not listed.
pub record GenerateProofRequest : Type 0 where
  pub proof_id : String
  pub elf_data : Bytes
  pub block_data : List BlockFileItem
  pub block_no : Option ℕ
  pub seg_size : ℕ
  pub elf_id : Option String
  pub signature : String
  pub public_input_stream : Bytes
  pub private_input_stream : Bytes
  pub target_step : Option ℕ
  pub composite_proof : Bool
  pub receipt_inputs : List Bytes
  pub receipts : List Bytes
  pub from_step : Option ℕ
  pub single_node : Bool
  pub max_prover_num : ℕ

pub record GenerateProofResponse : Type 0 where
  pub status : ℕ
  pub error_message : String
  pub proof_id : String
  pub snark_proof_url : String
  pub stark_proof_url : String
  pub output_stream : Bytes
  pub public_values_url : String

-- Third-party code of the service.
pub record Outside : Type 0 where
  -- `Signature::from_str(signature)?.recover(message)?`, printed: who has signed a message.
  pub recover : String → String → Option String
  -- An address parsed and written with its checksum.
  pub checksum : String → Option String
  -- Sha256 in hexadecimal digits.
  pub sha256_hex : Bytes → String
  -- `bincode::serialize_into`
  pub serialize : List Bytes → Bytes
  -- `serde_json::to_string` of a task.
  pub to_context : GenerateTask → Option String

abbrev pub status_invalid_parameter : ℕ
status_invalid_parameter = 3

-- How a call ends: with a response, with `Status::internal`, or not at all.
pub data Reply : Type 0 where
  responded : GenerateProofResponse → Reply
  internal : Reply
  panicked : Panic → Reply

-- A part of `generate_proof` goes on with a value, or ends the call.
pub data Outcome {ℓ} (A : Type ℓ) : Type ℓ where
  go : A → Outcome A
  stop : Reply → Outcome A

-- The files written so far stay, however the call ends.
abbrev pub M {ℓ} : Type ℓ → Type ℓ
M A = World → World × Outcome A

abbrev pub after {ℓ κ} :
    {A : Type ℓ} {B : Type κ} → World → Outcome A → (A → M B) → World × Outcome B
after w (go a) next = next a w
after w (stop reply) next = (w, stop reply)

infixl 5 ◌>>=◌ ◌>>◌
abbrev pub ◌>>=◌ {ℓ κ} : {A : Type ℓ} {B : Type κ} → M A → (A → M B) → M B
◌>>=◌ m next w = after (m w).0 (m w).1 next

abbrev pub ◌>>◌ {ℓ} : {B : Type ℓ} → M (Unit {0}) → M B → M B
m >> next = m >>= λ done. next

abbrev pub pure {ℓ} : {A : Type ℓ} → A → M A
pure a w = (w, go a)

abbrev pub finish_with {ℓ} : {A : Type ℓ} → Reply → M A
finish_with reply w = (w, stop reply)

-- `InvalidParameter` with a message.
abbrev pub invalid : GenerateProofRequest → String → Reply
invalid req message = responded (record {
  status = status_invalid_parameter;
  error_message = message;
  proof_id = req.proof_id;
  snark_proof_url = "";
  stark_proof_url = "";
  output_stream = [];
  public_values_url = "";
})

abbrev settle : World → Result (World × Bool) → World × Outcome (Unit {0})
settle w (panic reason) = (w, stop (panicked reason))
settle w (ok (w', true)) = (w', go tt)
settle w (ok (w', false)) = (w', stop internal)

-- `file::new(path).write(content)` and `file::new(path).create_dir_all()`, with
-- `map_err(Status::internal)?`.
unfoldable pub put : String → Bytes → M (Unit {0})
put path content w = settle w (write_file w path content)

unfoldable pub make_dir : String → M (Unit {0})
make_dir path w = settle w (create_dir_all w path)

-- What the server keeps: the files, the database, and the queue to the task manager, which is
-- closed once the manager has gone.
pub record ServiceState : Type 0 where
  pub world : World
  pub db : Database
  pub queue : List StageTask
  pub has_receiver : Bool
