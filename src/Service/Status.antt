-- ===== src/Service/Status.antt =====
-- `StageServiceSVC::get_status`: how a proof stands, and what it has produced.
use Prim.Native.String.{String, ◌++◌ as ◌<>◌}
use zkm_prover.Base.{
  ℕ, Bool, true, false, not, ◌&&◌, Option, none, some, List, [], ◌∷◌, str_eq, ◌==◌, if◌then◌else◌,
}
use zkm_prover.Platform.{Bytes, Result, ok, unwrap, ◌>>=◌, World, join, unwrap_none}
use zkm_prover.Tasks.{Step, GenerateTask, SplitTask}
use zkm_prover.Stage.{Backend}
use zkm_prover.Stage.Agg.{is_agg_step}
use zkm_prover.Files.{read_file}
use zkm_prover.Database.{StageTask, Database, get_stage_task, get_prove_task_infos}
use zkm_prover.Worker.{task_itype_split}
use zkm_prover.Worker.Finish.{status_success}
use zkm_prover.Config.{RuntimeConfig}
use zkm_prover.Service.Inputs.{suffix}
use zkm_prover.Service.Generate.{file_url, snark_file, stark_file}

pub record GetStatusResponse : Type 0 where
  pub proof_id : String
  pub status : ℕ
  pub proof_with_public_inputs : Bytes
  pub snark_proof_url : String
  pub stark_proof_url : String
  pub output_stream : Bytes
  pub step : ℕ
  pub public_values_url : String
  pub total_steps : ℕ
  pub receipt : Bytes
  pub elf_id : Bytes
  pub proving_time : ℕ

-- serde_json of a context and of a split task, and `String::into_bytes`.
pub record Decoder : Type 0 where
  pub from_json : String → Option GenerateTask
  pub split_from_json : String → Option SplitTask
  pub into_bytes : String → Bytes

-- `GetStatusResponse::default()` with the id.
abbrev pub no_status : String → GetStatusResponse
no_status proof_id = record {
  proof_id = proof_id;
  status = 0;
  proof_with_public_inputs = [];
  snark_proof_url = "";
  stark_proof_url = "";
  output_stream = [];
  step = 0;
  public_values_url = "";
  total_steps = 0;
  receipt = [];
  elf_id = [];
  proving_time = 0;
}

abbrev first_steps : Option (List SplitTask) → ℕ
first_steps none = 0
first_steps (some []) = 0
first_steps (some (t ∷ tasks)) = t.total_steps

-- What the context of a row tells, with the outputs of a proof that has ended well.
pub record Told : Type 0 where
  pub target_step : Step
  pub composite_proof : Bool
  pub proof_path : String
  pub output : Bytes
  pub receipt : Bytes

abbrev pub untold : Told
untold = record {
  target_step = Step.snark;
  composite_proof = false;
  proof_path = "";
  output = [];
  receipt = [];
}

-- A file that must be there.
read_all : World → String → Result Bytes
read_all w path = do content ← read_file w path; unwrap content unwrap_none

read_composite : World → GenerateTask → Result Bytes
unfolding read_all
read_composite w context =
    if context.composite_proof then read_all w (join context.prove_path "receipt/0") else ok []

unfoldable pub read_outputs : World → GenerateTask → Bool → Result (Bytes × Bytes)
unfolding read_all read_composite
read_outputs w context true = do
  output ← read_all w context.output_stream_path
  receipt ← read_composite w context
  ok (output, receipt)
read_outputs w context false = ok ([], [])

abbrev pub has_outputs : ℕ → GenerateTask → Bool
has_outputs status context = status == status_success && not (str_eq context.output_stream_path "")

unfoldable pub tell_context : World → ℕ → Option GenerateTask → Result Told
unfolding read_outputs
tell_context w status none = ok untold
tell_context w status (some context) = do
  outputs ← read_outputs w context (has_outputs status context)
  ok (record {
    target_step = context.target_step;
    composite_proof = context.composite_proof;
    proof_path = context.snark_path;
    output = outputs.0;
    receipt = outputs.1;
  })

unfoldable pub tell : Decoder → World → ℕ → Option String → Result Told
unfolding tell_context
tell decoder w status none = ok untold
tell decoder w status (some text) = tell_context w status (decoder.from_json text)

abbrev or_empty : Option Bytes → Bytes
or_empty none = []
or_empty (some content) = content

-- The proof: in the row, or, of a proof that ends with the aggregation, in a file.
unfoldable pub file_proof : World → String → Bool → Bytes → Result Bytes
file_proof w path true result = do content ← read_file w path; ok (or_empty content)
file_proof w path false result = ok result

unfoldable pub read_proof : Decoder → World → ℕ → Told → Option String → Result Bytes
unfolding file_proof
read_proof decoder w status told none = ok []
read_proof decoder w status told (some result) =
    file_proof w told.proof_path (is_agg_step told.target_step && status == status_success)
      (decoder.into_bytes result)

abbrev whole_proof_url : Backend → Option String → Step → String → String → String
whole_proof_url Backend.prover server Step.snark proof_id file = file_url server proof_id file
whole_proof_url backend server step proof_id file = ""

-- A proof is shown unless it ends with the split or is a part of another.
abbrev pub is_shown : Told → Bool
is_shown told = elim told.target_step [ Step.split ↦ false | _ ↦ not told.composite_proof ]

unfoldable pub show_proof :
    Decoder
    → Backend
    → RuntimeConfig
    → World
    → StageTask
    → String
    → Told
    → GetStatusResponse
    → Result GetStatusResponse
unfolding read_proof
show_proof decoder backend config w task proof_id told response = do
  proof ← read_proof decoder w task.status told task.result
  ok (record response {
    proof_with_public_inputs = proof;
    snark_proof_url =
        whole_proof_url backend config.fileserver_url told.target_step proof_id snark_file;
    stark_proof_url =
        whole_proof_url backend config.fileserver_url told.target_step proof_id stark_file;
    public_values_url =
        file_url config.fileserver_url proof_id ("wrap/public_values." <> suffix backend);
  })

unfoldable pub show_if :
    Bool
    → Decoder
    → Backend
    → RuntimeConfig
    → World
    → StageTask
    → String
    → Told
    → GetStatusResponse
    → Result GetStatusResponse
unfolding show_proof
show_if true decoder backend config w task proof_id told response =
    show_proof decoder backend config w task proof_id told response
show_if false decoder backend config w task proof_id told response = ok response

unfoldable pub report :
    Decoder
    → Backend
    → RuntimeConfig
    → World
    → Database
    → String
    → StageTask
    → Result GetStatusResponse
unfolding tell show_if
report decoder backend config w db proof_id task = do
  infos ← get_prove_task_infos decoder.split_from_json db proof_id task_itype_split
  told ← tell decoder w task.status task.context
  let response = record (no_status proof_id) {
    status = task.status;
    step = task.step;
    proving_time = task.check_at;
    total_steps = first_steps infos;
    output_stream = told.output;
    receipt = told.receipt;
  }
  show_if (is_shown told) decoder backend config w task proof_id told response

-- What is answered for the row, or the missing row, of a proof.
unfoldable pub answer :
    Decoder
    → Backend
    → RuntimeConfig
    → World
    → Database
    → String
    → Option StageTask
    → Result GetStatusResponse
unfolding report
answer decoder backend config w db proof_id none = ok (no_status proof_id)
answer decoder backend config w db proof_id (some task) =
    report decoder backend config w db proof_id task

unfoldable pub get_status :
    Decoder → Backend → RuntimeConfig → World → Database → String → Result GetStatusResponse
unfolding answer
get_status decoder backend config w db proof_id =
    answer decoder backend config w db proof_id (get_stage_task db proof_id)
