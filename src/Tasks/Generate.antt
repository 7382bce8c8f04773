-- ===== src/Tasks/Generate.antt =====
-- proof-service/src/stage/tasks/generate_task.rs: `GenerateTask::gen_program`.
use zkm_prover.Base.{ℕ, Option, none, some, List, [], String, str_eq, ltb, if◌then◌else◌}
use zkm_prover.Platform.{
  Bytes, Result, ok, panic, unwrap, ◌>>=◌, Env, World, read, safe_read, expect_failed,
  not_yet_implemented,
}
use zkm_prover.Tasks.{GenerateTask, Program, BlockFileItem}

-- A block number above 0 meets a `todo!()`.
unfoldable pub block_data : Option ℕ → Result (List BlockFileItem)
block_data none = ok []
block_data (some block_no) = if ltb 0 block_no then panic not_yet_implemented else ok []

unfoldable pub load_receipts : Env → World → String → Result (List Bytes)
unfolding read
load_receipts env w path = if str_eq path "" then ok [] else (do
  content ← unwrap (read w path) expect_failed
  unwrap (env.deserialize content) expect_failed)

build_program : World → GenerateTask → List BlockFileItem → List Bytes → Program
unfolding safe_read
build_program w g blocks receipts = record {
  version = g.version;
  elf_path = g.elf_path;
  block_data = blocks;
  block_no = g.block_no;
  seg_size = g.seg_size;
  public_input_stream = safe_read w g.public_input_path;
  private_input_stream = safe_read w g.private_input_path;
  target_step = g.target_step;
  composite_proof = g.composite_proof;
  proof_id = g.proof_id;
  receipts = receipts;
  output_stream = safe_read w g.output_stream_path;
}

unfoldable pub gen_program : Env → World → GenerateTask → Result Program
unfolding block_data load_receipts build_program
gen_program env w g = elim g.program [
  | some program ↦ ok program
  | none ↦ do
    blocks ← block_data g.block_no
    receipts ← load_receipts env w g.receipt_inputs_path
    ok (build_program w g blocks receipts)
]
