-- ===== src/Stage.antt =====
-- proof-service/src/stage/stage.rs: the scheduler of one proof. The children model its methods.
pub mod Segments
pub mod MakeProve
pub mod Prove
pub mod Split
pub mod Chunks
pub mod Aggregate
pub mod Pairwise
pub mod Agg
pub mod Snark
pub mod Dispatch
pub mod Waiting
pub mod Run
pub mod Calm
use zkm_prover.Base.{ℕ, String, Bool, false, none, List, []}
use zkm_prover.Tasks.{
  Step, GenerateTask, SplitTask, ProveTask, AggTask, SnarkTask, task_state_initial,
}
use zkm_prover.Tasks.Agg.{default_trace}

-- The cargo feature that the service is built with.
pub data Backend : Type 0 where
  prover prover_v2 : Backend

pub record Stage : Type 0 where
  pub generate_task : GenerateTask
  pub split_task : SplitTask
  pub prove_tasks : List ProveTask
  pub agg_tasks : List AggTask
  pub snark_task : SnarkTask
  pub is_error : Bool
  pub errmsg : String
  pub step : Step
  pub is_tasks_gen_done : Bool

-- `SplitTask::default()`
abbrev pub default_split : SplitTask
default_split = record {
  task_id = "";
  program_id = "";
  state = task_state_initial;
  proof_id = "";
  base_dir = "";
  elf_path = "";
  seg_path = "";
  public_input_path = "";
  private_input_path = "";
  output_path = "";
  args = "";
  block_no = none;
  seg_size = 0;
  recepit_inputs_path = "";
  trace = default_trace;
  output = [];
  total_steps = 0;
  total_segments = 0;
}

-- `SnarkTask::default()`
abbrev pub default_snark : SnarkTask
default_snark = record {
  task_id = "";
  state = task_state_initial;
  proof_id = "";
  version = 0;
  input_dir = "";
  output_path = "";
  agg_receipt = [];
  from_input = false;
  output = [];
  trace = default_trace;
}

unfoldable pub new : GenerateTask → Stage
new generate_task = record {
  generate_task = generate_task;
  split_task = default_split;
  prove_tasks = [];
  agg_tasks = [];
  snark_task = default_snark;
  is_error = false;
  errmsg = "";
  step = generate_task.from_step;
  is_tasks_gen_done = false;
}
