-- ===== src/Client/Requests.antt =====
-- The requests that the calls send, and the parts of the answers that they read.
use zkm_prover.Base.{ℕ, ◌%◌, ◌^◌, String, Bool, Option, List}
use zkm_prover.Platform.{Bytes}
use zkm_prover.Tasks.{SplitTask, ProveTask, AggTask, SnarkTask, AggregateInput}

pub record SplitElfRequest : Type 0 where
  pub proof_id : String
  pub computed_request_id : String
  pub base_dir : String
  pub seg_path : String
  pub elf_path : String
  pub block_no : Option ℕ
  pub seg_size : ℕ
  pub args : String
  pub public_input_path : String
  pub private_input_path : String
  pub output_path : String
  pub receipt_inputs_path : String
  pub program_id : String

unfoldable pub split_request : SplitTask → SplitElfRequest
split_request t = record {
  proof_id = t.proof_id;
  computed_request_id = t.task_id;
  base_dir = t.base_dir;
  seg_path = t.seg_path;
  elf_path = t.elf_path;
  block_no = t.block_no;
  seg_size = t.seg_size;
  args = t.args;
  public_input_path = t.public_input_path;
  private_input_path = t.private_input_path;
  output_path = t.output_path;
  receipt_inputs_path = t.recepit_inputs_path;
  program_id = t.program_id;
}

pub record ProveRequest : Type 0 where
  pub proof_id : String
  pub computed_request_id : String
  pub program_id : String
  pub segment : String
  pub block_no : Option ℕ
  pub seg_size : ℕ
  pub elf_path : String
  pub receipts_input : List Bytes
  pub index : ℕ

unfoldable pub prove_request : ProveTask → ProveRequest
prove_request t = record {
  proof_id = t.program.proof_id;
  computed_request_id = t.task_id;
  program_id = t.program_id;
  segment = t.segment;
  block_no = t.program.block_no;
  seg_size = t.program.seg_size;
  elf_path = t.program.elf_path;
  receipts_input = t.program.receipts;
  index = t.file_no % 2 ^ 32;
}

pub record AggregateRequest : Type 0 where
  pub proof_id : String
  pub computed_request_id : String
  pub block_no : Option ℕ
  pub seg_size : ℕ
  pub vk : Bytes
  pub inputs : List AggregateInput
  pub is_final : Bool
  pub is_first_shard : Bool
  pub is_leaf_layer : Bool
  pub is_deferred : Bool

unfoldable pub aggregate_request : AggTask → AggregateRequest
aggregate_request t = record {
  proof_id = t.proof_id;
  computed_request_id = t.task_id;
  block_no = t.block_no;
  seg_size = t.seg_size;
  vk = t.vk;
  inputs = t.inputs;
  is_final = t.is_final;
  is_first_shard = t.is_first_shard;
  is_leaf_layer = t.is_leaf_layer;
  is_deferred = t.is_deferred;
}

pub record SnarkProofRequest : Type 0 where
  pub proof_id : String
  pub computed_request_id : String
  pub version : ℕ
  pub agg_receipt : Bytes
  pub from_input : Bool

unfoldable pub snark_request : SnarkTask → SnarkProofRequest
snark_request t = record {
  proof_id = t.proof_id;
  computed_request_id = t.task_id;
  version = t.version;
  agg_receipt = t.agg_receipt;
  from_input = t.from_input;
}

-- An answer: the code of its `result`, if it has one, and what else the call reads.
pub record Response (P : Type 0) : Type 0 where
  pub code : Option ℕ
  pub payload : P

pub record SplitTotals : Type 0 where
  pub total_steps : ℕ
  pub total_segments : ℕ
