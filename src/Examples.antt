-- ===== src/Examples.antt =====
-- A small proof at work: the data on which the theorems and the functions are tried.
mod Splits
mod Texts
mod Plans
mod Hands
mod Runs
mod Works
mod Served
mod Calls
mod Requests
mod Answers
mod Queues
use zkm_prover.Base.{
  ℕ, zero, suc, String, Bool, true, false, Option, none, some, List, [], ◌∷◌, str_eq,
}
use zkm_prover.Platform.{Bytes, Env, World}
use zkm_prover.Tasks.{
  Step, ProverVersion, Trace, Program, GenerateTask, ProveTask, AggTask, task_state_unprocessed,
  task_state_processing, task_state_success,
}
use zkm_prover.Tasks.Agg.{default_trace}
use zkm_prover.Stage.{Stage, default_split, default_snark}

abbrev uuid_of : ℕ → String
uuid_of zero = "u0"
uuid_of (suc zero) = "u1"
uuid_of (suc (suc zero)) = "u2"
uuid_of (suc (suc (suc zero))) = "u3"
uuid_of n = "u4"

abbrev pub example_env : Env
example_env = record { uuid = uuid_of; deserialize = λ content. some (content ∷ []) }

abbrev file_of : String → Option Bytes
file_of path = elim (str_eq path "base/vk.bin") [
  | true ↦ some (7 ∷ [])
  | false ↦ elim (str_eq path "base/0") [ true ↦ some (1 ∷ []) | false ↦ none ]
]

-- The key and the first segment are there.
abbrev pub example_world : World
example_world = record {
  now = 1000;
  drawn = 0;
  files = file_of;
  objects = λ path. none;
  dirs = λ path. none;
  writable = λ path. true;
  answers = λ path. true;
}

abbrev pub example_program : Program
example_program = record {
  version = ProverVersion.zkm2;
  elf_path = "elf";
  block_data = [];
  block_no = none;
  seg_size = 65536;
  public_input_stream = [];
  private_input_stream = [];
  target_step = Step.snark;
  composite_proof = false;
  receipts = [];
  proof_id = "proof";
  output_stream = [];
}

abbrev pub example_generate : GenerateTask
example_generate = record {
  program_id = "program";
  base_dir = "base";
  proof_id = "proof";
  version = ProverVersion.zkm2;
  elf_path = "elf";
  seg_path = "base";
  prove_path = "prove";
  agg_path = "agg";
  snark_path = "snark";
  public_input_path = "public";
  private_input_path = "private";
  output_stream_path = "output";
  block_no = none;
  seg_size = 65536;
  max_prover_num = 2;
  target_step = Step.snark;
  from_step = Step.init;
  single_node = false;
  composite_proof = false;
  receipt_inputs_path = "receipts";
  receipts_path = "receipts_in";
  program = some example_program;
}

abbrev pub prove_at : String → ℕ → String → ℕ → ℕ → ProveTask
prove_at id file_no segment state failure_count = record {
  task_id = id;
  program_id = "program";
  proof_id = "proof";
  state = state;
  base_dir = "base";
  file_no = file_no;
  is_deferred = false;
  segment = segment;
  program = example_program;
  output = [];
  trace = default_trace;
  failure_count = failure_count;
}

-- Three segments, of which the first is ready.
abbrev pub three_proofs : List ProveTask
three_proofs =
    prove_at "p0" 0 "base/0" task_state_unprocessed 0
    ∷ prove_at "p1" 1 "base/1" task_state_unprocessed 0
    ∷ prove_at "p2" 2 "base/2" task_state_unprocessed 0
    ∷ []

abbrev pub stage_with : List ProveTask → Stage
stage_with proves = record {
  generate_task = example_generate;
  split_task = default_split;
  prove_tasks = proves;
  agg_tasks = [];
  snark_task = default_snark;
  is_error = false;
  errmsg = "";
  step = Step.prove;
  is_tasks_gen_done = false;
}
