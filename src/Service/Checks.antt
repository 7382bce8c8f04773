-- ===== src/Service/Checks.antt =====
-- The checks that `generate_proof` makes before it writes anything.
use Prim.Native.String.{String, ◌++◌ as ◌<>◌}
use zkm_prover.Base.{
  ℕ, Bool, not, ◌&&◌, Option, none, some, List, [], ◌∷◌, leb, ◌==◌, ◌^◌, if◌then◌else◌,
}
use zkm_prover.Platform.{unwrap_none}
use zkm_prover.Tasks.{Step}
use zkm_prover.Stage.{Backend}
use zkm_prover.Stage.Segments.{show}
use zkm_prover.Database.{Database, get_user}
use zkm_prover.Service.{
  GenerateProofRequest, Outside, M, ◌>>=◌, ◌>>◌, pure, finish_with, invalid, panicked,
}

abbrev pub min_seg_size : ℕ
min_seg_size = 2 ^ 10

abbrev pub max_seg_size : ℕ
max_seg_size = 2 ^ 22

unfoldable pub valid_seg_size : ℕ → Bool
valid_seg_size seg_size = leb min_seg_size seg_size && leb seg_size max_seg_size

-- The build with the feature prover tests the size of a segment.
unfoldable pub check_seg_size : Backend → GenerateProofRequest → M (Unit {0})
unfolding valid_seg_size
check_seg_size Backend.prover req =
    if not req.composite_proof && not (valid_seg_size req.seg_size)
    then finish_with (invalid req "invalid seg_size support [1024-4194304]")
    else pure tt
check_seg_size Backend.prover_v2 req = pure tt

-- The text that a user signs.
unfoldable pub sign_data : GenerateProofRequest → String
unfolding show
sign_data req = elim req.block_no [
  | some block_no ↦ req.proof_id <> ("&" <> (show block_no <> ("&" <> show req.seg_size)))
  | none ↦ req.proof_id <> ("&" <> show req.seg_size)
]

unfoldable pub verify_signature : Outside → GenerateProofRequest → Option String
unfolding sign_data
verify_signature outside req = outside.recover req.signature (sign_data req)

-- The first of the rows that the white list has for the signer.
unfoldable pub first_user : GenerateProofRequest → Option (List String) → M String
first_user req none = finish_with (panicked unwrap_none)
first_user req (some []) = finish_with (invalid req "permission denied")
first_user req (some (user ∷ users)) = pure user

unfoldable pub check_address : Outside → Database → GenerateProofRequest → Option String → M String
unfolding first_user
check_address outside db req none = finish_with (invalid req "invalid signature")
check_address outside db req (some address) = first_user req (get_user outside.checksum db address)

unfoldable pub check_user : Outside → Database → GenerateProofRequest → M String
unfolding verify_signature check_address
check_user outside db req = check_address outside db req (verify_signature outside req)

abbrev or_code : Option ℕ → ℕ → ℕ
or_code none default = default
or_code (some code) default = code

-- `from_step.unwrap_or(Step::Init)` and `target_step.unwrap_or(Step::Snark)`
abbrev pub from_code : GenerateProofRequest → ℕ
from_code req = or_code req.from_step 0

abbrev pub target_code : GenerateProofRequest → ℕ
target_code req = or_code req.target_step 5

unfoldable pub check_from_step : GenerateProofRequest → M Step
check_from_step req =
    if from_code req == 0
    then pure Step.init
    else if from_code req == 3
    then pure Step.agg
    else finish_with (invalid req "invalid FromStep, only Support Init and Agg")

unfoldable pub check_target_step : GenerateProofRequest → M Step
check_target_step req =
    if target_code req == 1
    then pure Step.split
    else if target_code req == 3
    then pure Step.agg
    else if target_code req == 5
    then pure Step.snark
    else finish_with (invalid req "invalid TargetStep, only Support Split, Agg and Snark")

-- What the checks find out.
pub record Admission : Type 0 where
  pub user : String
  pub from_step : Step
  pub target_step : Step

unfoldable pub admit : Outside → Backend → Database → GenerateProofRequest → M Admission
admit outside backend db req = do
  check_seg_size backend req
  user ← check_user outside db req
  from_step ← check_from_step req
  target_step ← check_target_step req
  pure (record { user = user; from_step = from_step; target_step = target_step })
