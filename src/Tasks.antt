-- ===== src/Tasks.antt =====
-- The tasks of a proof: proof-service/src/stage/tasks/*.rs, with the messages of
-- proto/src/proto/include/v1 that they hold. A task's state is the `u32` of the source.
pub mod Progress
pub mod Agg
pub mod Generate
use zkm_prover.Base.{ℕ, ◌+◌, ◌-◌, ◌%◌, ◌^◌, String, Bool, Option, List}
use zkm_prover.Platform.{Bytes}

abbrev pub task_state_initial : ℕ
task_state_initial = 0

abbrev pub task_state_unprocessed : ℕ
task_state_unprocessed = 1

abbrev pub task_state_processing : ℕ
task_state_processing = 2

abbrev pub task_state_success : ℕ
task_state_success = 3

abbrev pub task_state_failed : ℕ
task_state_failed = 4

pub data Step : Type 0 where
  init split prove agg snark end : Step

pub data ProverVersion : Type 0 where
  zkm zkm2 : ProverVersion

pub record Trace : Type 0 where
  pub start_ts : ℕ
  pub finish_ts : ℕ
  pub node_info : String

-- A `u64` difference, which wraps in a release build.
pub duration : Trace → ℕ
duration t = (t.finish_ts + 2 ^ 64 - t.start_ts) % 2 ^ 64

pub record BlockFileItem : Type 0 where
  pub file_name : String
  pub file_content : Bytes

pub record Program : Type 0 where
  pub version : ProverVersion
  pub elf_path : String
  pub block_data : List BlockFileItem
  pub block_no : Option ℕ
  pub seg_size : ℕ
  pub public_input_stream : Bytes
  pub private_input_stream : Bytes
  pub target_step : Step
  pub composite_proof : Bool
  pub receipts : List Bytes
  pub proof_id : String
  pub output_stream : Bytes

pub record GenerateTask : Type 0 where
  pub program_id : String
  pub base_dir : String
  pub proof_id : String
  pub version : ProverVersion
  pub elf_path : String
  pub seg_path : String
  pub prove_path : String
  pub agg_path : String
  pub snark_path : String
  pub public_input_path : String
  pub private_input_path : String
  pub output_stream_path : String
  pub block_no : Option ℕ
  pub seg_size : ℕ
  pub max_prover_num : ℕ
  pub target_step : Step
  pub from_step : Step
  pub single_node : Bool
  pub composite_proof : Bool
  pub receipt_inputs_path : String
  pub receipts_path : String
  pub program : Option Program

pub record SplitTask : Type 0 where
  pub task_id : String
  pub program_id : String
  pub state : ℕ
  pub proof_id : String
  pub base_dir : String
  pub elf_path : String
  pub seg_path : String
  pub public_input_path : String
  pub private_input_path : String
  pub output_path : String
  pub args : String
  pub block_no : Option ℕ
  pub seg_size : ℕ
  pub recepit_inputs_path : String
  pub trace : Trace
  pub output : Bytes
  pub total_steps : ℕ
  pub total_segments : ℕ

pub record ProveTask : Type 0 where
  pub task_id : String
  pub program_id : String
  pub proof_id : String
  pub state : ℕ
  pub base_dir : String
  pub file_no : ℕ
  pub is_deferred : Bool
  pub segment : String
  pub program : Program
  pub output : Bytes
  pub trace : Trace
  pub failure_count : ℕ

pub record AggregateInput : Type 0 where
  pub receipt_input : Bytes
  pub computed_request_id : String
  pub is_agg : Bool

pub record AggTask : Type 0 where
  pub task_id : String
  pub state : ℕ
  pub proof_id : String
  pub block_no : Option ℕ
  pub seg_size : ℕ
  pub vk : Bytes
  pub inputs : List AggregateInput
  pub is_final : Bool
  pub is_first_shard : Bool
  pub is_leaf_layer : Bool
  pub from_prove : Bool
  pub agg_index : ℕ
  pub is_deferred : Bool
  pub trace : Trace
  pub output : Bytes
  pub childs : List (Option String)

pub record SnarkTask : Type 0 where
  pub task_id : String
  pub state : ℕ
  pub proof_id : String
  pub version : ℕ
  pub input_dir : String
  pub output_path : String
  pub agg_receipt : Bytes
  pub from_input : Bool
  pub output : Bytes
  pub trace : Trace

pub record SingleNodeTask : Type 0 where
  pub task_id : String
  pub program_id : String
  pub base_dir : String
  pub state : ℕ
  pub proof_id : String
  pub elf_path : String
  pub private_input_path : String
  pub receipt_inputs_path : String
  pub target_step : Step
  pub trace : Trace
  pub output : Bytes
  pub seg_size : ℕ
  pub total_cycles : ℕ
