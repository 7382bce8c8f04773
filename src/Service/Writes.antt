-- ===== src/Service/Writes.antt =====
-- The parts of `generate_proof` that write: where they end the call, they do not accept.
use Prim.Native.String.{String, ◌++◌ as ◌<>◌}
use zkm_prover.Base.{◌≡◌, refl, Bool, true, false, Option, none, some, List, [], ◌∷◌, is_empty}
use zkm_prover.Platform.{Bytes, World, join}
use zkm_prover.Tasks.{Step, BlockFileItem}
use zkm_prover.Stage.Segments.{show}
use zkm_prover.Service.{GenerateProofRequest, Outside, pure}
use zkm_prover.Service.Inputs.{
  path_exists, bare_id, take_known, find_elf, store_unless, store_elf, find_known, choose_elf,
  write_blocks, write_input, write_receipts, block_no_of, write_streams,
}
use zkm_prover.Service.Holds.{Holds, Holds->>=, Holds-if, Holds-put-then, Holds-make_dir-then, Any}

take_known-Any :
    (req : GenerateProofRequest) (known : Bool) (elf : String × String) (w : World)
    → Holds Any (take_known req known elf w).1
unfolding take_known
take_known-Any req true elf w = tt
take_known-Any req false elf w = refl

store_unless-Any :
    (known : Bool) (content : Bytes) (elf : String × String) (w : World)
    → Holds Any (store_unless known content elf w).1
unfolding store_unless
store_unless-Any true content elf w = tt
store_unless-Any false content elf w = Holds-put-then Any elf.0 content (pure elf) w (λ w'. tt)

find_known-Any :
    (req : GenerateProofRequest) (elf_dir : String) (elf_id : Option String) (w : World)
    → Holds Any (find_known req elf_dir elf_id w).1
unfolding find_known find_elf
find_known-Any req elf_dir none w = refl
find_known-Any req elf_dir (some elf_id) w =
    let path = join elf_dir (bare_id elf_id) in
    take_known-Any req (path_exists w path) (path, bare_id elf_id) w

pub choose_elf-Any :
    (outside : Outside) (base_dir : String) (step : Step) (req : GenerateProofRequest) (w : World)
    → Holds Any (choose_elf outside base_dir step req w).1
unfolding choose_elf store_elf
choose_elf-Any outside base_dir Step.init req w =
    let elf_dir = join base_dir "elf" in
    Holds-if Any (is_empty req.elf_data) (find_known req elf_dir req.elf_id)
      (store_elf outside req elf_dir) w (λ e. find_known-Any req elf_dir req.elf_id w)
      (λ e.
        store_unless-Any (path_exists w (join elf_dir (outside.sha256_hex req.elf_data)))
          req.elf_data
          (join elf_dir (outside.sha256_hex req.elf_data), outside.sha256_hex req.elf_data) w)
choose_elf-Any outside base_dir Step.split req w = tt
choose_elf-Any outside base_dir Step.prove req w = tt
choose_elf-Any outside base_dir Step.agg req w = tt
choose_elf-Any outside base_dir Step.snark req w = tt
choose_elf-Any outside base_dir Step.end req w = tt

write_blocks-Any :
    (dir : String) (items : List BlockFileItem) (w : World) → Holds Any (write_blocks dir items w).1
unfolding write_blocks
write_blocks-Any dir [] w = tt
write_blocks-Any dir (item ∷ items) w =
    Holds-put-then Any (join dir item.file_name) item.file_content (write_blocks dir items) w
      (write_blocks-Any dir items)

write_input-Any :
    (path : String) (content : Bytes) (w : World) → Holds Any (write_input path content w).1
unfolding write_input
write_input-Any path [] w = tt
write_input-Any path (byte ∷ bytes) w =
    Holds-put-then Any path (byte ∷ bytes) (pure path) w (λ w'. tt)

-- Receipts that are there have the path.
abbrev pub AtPath : String → List Bytes → String → Type 0
AtPath path receipts p = is_empty receipts ≡ false → p ≡ path

pub write_receipts-AtPath :
    (outside : Outside) (path : String) (receipts : List Bytes) (w : World)
    → Holds (AtPath path receipts) (write_receipts outside path receipts w).1
unfolding write_receipts
write_receipts-AtPath outside path [] w = λ h. cc
write_receipts-AtPath outside path (receipt ∷ receipts) w =
    Holds-put-then (AtPath path (receipt ∷ receipts)) path (outside.serialize (receipt ∷ receipts))
      (pure path) w (λ w' h. refl)

pub write_streams-Any :
    (dir : String) (req : GenerateProofRequest) (w : World) → Holds Any (write_streams dir req w).1
unfolding write_streams
write_streams-Any dir req w = Holds-make_dir-then Any dir _ w λ w₁.
    Holds-make_dir-then Any (join dir ("0_" <> show (block_no_of req))) _ w₁ λ w₂.
      Holds->>= Any Any (write_blocks (join dir ("0_" <> show (block_no_of req))) req.block_data) _
        w₂ (write_blocks-Any _ req.block_data w₂)
        λ done w₃ h₃. Holds-make_dir-then Any (join dir "input_stream") _ w₃ λ w₄.
          Holds->>= Any Any (write_input _ req.public_input_stream) _ w₄
            (write_input-Any _ req.public_input_stream w₄)
            λ public_input w₅ h₅.
              Holds->>= Any Any (write_input _ req.private_input_stream) _ w₅
                (write_input-Any _ req.private_input_stream w₅) (λ private_input w₆ h₆. tt)
