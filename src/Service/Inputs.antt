-- ===== src/Service/Inputs.antt =====
-- What `generate_proof` writes for a proof: the program, the directories and the inputs.
use Prim.Native.String.{String, ◌++◌ as ◌<>◌}
use zkm_prover.Base.{
  ℕ, Bool, true, false, ◌||◌, Option, none, some, List, [], ◌∷◌, is_empty, if◌then◌else◌,
}
use zkm_prover.Platform.{Bytes, World, join}
use zkm_prover.Tasks.{Step, BlockFileItem}
use zkm_prover.Stage.{Backend}
use zkm_prover.Stage.Segments.{show}
use zkm_prover.Files.{strip_prefix, is_present}
use zkm_prover.Service.{
  GenerateProofRequest, Outside, M, ◌>>=◌, ◌>>◌, pure, finish_with, invalid, put, make_dir,
}

-- `std::path::Path::new(path).exists()`, which looks at local files only.
unfoldable pub path_exists : World → String → Bool
path_exists w path = is_present (w.files path) || is_present (w.dirs path)

-- `elf_id.strip_prefix("0x").unwrap_or(&elf_id)`
unfoldable pub bare_id : String → String
unfolding strip_prefix
bare_id elf_id = elim (strip_prefix "0x" elf_id) [ some rest ↦ rest | none ↦ elf_id ]

-- The program with its path and its id, if it is there.
unfoldable pub take_known : GenerateProofRequest → Bool → String × String → M (String × String)
take_known req true elf = pure elf
take_known req false elf = finish_with (invalid req "elf_id not found")

unfoldable pub find_elf : GenerateProofRequest → String → String → M (String × String)
unfolding path_exists take_known
find_elf req elf_dir elf_id w =
    take_known req (path_exists w (join elf_dir elf_id)) (join elf_dir elf_id, elf_id) w

-- A program that comes with the request is written where it is not there yet.
unfoldable pub store_unless : Bool → Bytes → String × String → M (String × String)
store_unless true content elf = pure elf
store_unless false content elf = do put elf.0 content; pure elf

unfoldable pub store_elf : Outside → GenerateProofRequest → String → M (String × String)
unfolding path_exists store_unless
store_elf outside req elf_dir w =
    let elf_id = outside.sha256_hex req.elf_data in
    let path = join elf_dir elf_id in
    store_unless (path_exists w path) req.elf_data (path, elf_id) w

unfoldable pub find_known : GenerateProofRequest → String → Option String → M (String × String)
unfolding find_elf bare_id
find_known req elf_dir none = finish_with (invalid req "elf_data or elf_id should not be empty")
find_known req elf_dir (some elf_id) = find_elf req elf_dir (bare_id elf_id)

unfoldable pub choose_elf : Outside → String → Step → GenerateProofRequest → M (String × String)
unfolding find_known store_elf
choose_elf outside base_dir Step.init req =
    let elf_dir = join base_dir "elf" in
    if is_empty req.elf_data
    then find_known req elf_dir req.elf_id
    else store_elf outside req elf_dir
choose_elf outside base_dir _ req = pure ("", "")

unfoldable pub write_blocks : String → List BlockFileItem → M (Unit {0})
write_blocks block_dir [] = pure tt
write_blocks block_dir (item ∷ items) = do
  put (join block_dir item.file_name) item.file_content
  write_blocks block_dir items

-- An input that is not empty has a file, and else the empty path.
unfoldable pub write_input : String → Bytes → M String
write_input path [] = pure ""
write_input path (byte ∷ bytes) = do put path (byte ∷ bytes); pure path

unfoldable pub write_receipts : Outside → String → List Bytes → M String
write_receipts outside path [] = pure ""
write_receipts outside path (receipt ∷ receipts) = do
  put path (outside.serialize (receipt ∷ receipts))
  pure path

-- A proof that starts from the aggregation has receipts and more than one node.
unfoldable pub check_receipts : Step → GenerateProofRequest → M (Unit {0})
check_receipts Step.agg req =
    if is_empty req.receipt_inputs || req.single_node
    then finish_with (invalid req "receipt_inputs should not empty")
    else pure tt
check_receipts _ req = pure tt

-- Where the inputs of a proof are.
pub record Inputs : Type 0 where
  pub public_input : String
  pub private_input : String
  pub receipt_inputs : String
  pub receipts : String

abbrev pub block_no_of : GenerateProofRequest → ℕ
block_no_of req = elim req.block_no [ none ↦ 0 | some block_no ↦ block_no ]

-- The block files and the two input streams.
unfoldable pub write_streams : String → GenerateProofRequest → M (String × String)
unfolding write_blocks write_input
write_streams dir req = do
  make_dir dir
  let block_dir = join dir ("0_" <> show (block_no_of req))
  make_dir block_dir
  write_blocks block_dir req.block_data
  make_dir (join dir "input_stream")
  public_input ← write_input (join (join dir "input_stream") "public_input") req.public_input_stream
  private_input ←
      write_input (join (join dir "input_stream") "private_input") req.private_input_stream
  pure (public_input, private_input)

unfoldable pub store_inputs : Outside → Step → String → GenerateProofRequest → M Inputs
unfolding write_streams check_receipts write_receipts
store_inputs outside from_step dir req = do
  streams ← write_streams dir req
  check_receipts from_step req
  receipt_inputs ←
      write_receipts outside (join (join dir "input_stream") "receipt_inputs") req.receipt_inputs
  receipts ← write_receipts outside (join (join dir "input_stream") "receipts") req.receipts
  pure (record {
    public_input = streams.0;
    private_input = streams.1;
    receipt_inputs = receipt_inputs;
    receipts = receipts;
  })

abbrev pub suffix : Backend → String
suffix Backend.prover = "json"
suffix Backend.prover_v2 = "bin"

-- A proof that starts from the aggregation has empty public values.
unfoldable pub write_public_values : Backend → Step → String → M (Unit {0})
write_public_values backend Step.agg wrap_dir =
    put (join wrap_dir ("public_values." <> suffix backend)) []
write_public_values backend _ wrap_dir = pure tt

-- The directories for what the proof produces.
unfoldable pub make_work_dirs : Backend → Step → String → M (Unit {0})
unfolding write_public_values
make_work_dirs backend from_step dir = do
  make_dir (join dir "output_stream")
  make_dir (join dir "segment")
  make_dir (join (join dir "prove") "receipt")
  make_dir (join dir "wrap")
  write_public_values backend from_step (join dir "wrap")
  make_dir (join dir "snark")
