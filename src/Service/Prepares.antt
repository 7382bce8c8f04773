-- ===== src/Service/Prepares.antt =====
-- What `generate_proof` has made of a request when it comes to the database.
use Prim.Native.String.{String}
use zkm_prover.Base.{ℕ, ◌≡◌, refl, ◌≤◌, ◌<◌, false, ◌||◌, none, some, [], length, is_empty, arith}
use zkm_prover.Platform.{World, join}
use zkm_prover.Tasks.{Step, GenerateTask}
use zkm_prover.Stage.{Backend}
use zkm_prover.Database.{Database}
use zkm_prover.Config.{RuntimeConfig}
use zkm_prover.Service.{GenerateProofRequest, Outside, pure, finish_with, invalid}
use zkm_prover.Service.Checks.{admit, from_code, target_code}
use zkm_prover.Service.Inputs.{
  choose_elf, write_receipts, check_receipts, Inputs, block_no_of, write_streams, store_inputs,
  write_public_values, make_work_dirs,
}
use zkm_prover.Service.Generate.{prover_num, proof_dir, prepare}
use zkm_prover.Service.Holds.{
  Holds, Holds->>=, Holds-if, Holds-make_dir-then, Holds-make_dir, Holds-put, Any,
}
use zkm_prover.Service.Writes.{choose_elf-Any, write_streams-Any, AtPath, write_receipts-AtPath}
use zkm_prover.Service.Admits.{IsSized, IsListed, IsFrom, IsTarget, IsAdmitted, admit-IsAdmitted}

-- Where a proof that starts from the aggregation has its receipts; it uses several nodes.
abbrev pub HasReceipts : Step → GenerateProofRequest → Type 0
HasReceipts Step.agg req = (is_empty req.receipt_inputs ≡ false) × (req.single_node ≡ false)
HasReceipts _ req = Unit

check_receipts-HasReceipts :
    (step : Step) (req : GenerateProofRequest) (w : World)
    → Holds (λ done. HasReceipts step req) (check_receipts step req w).1
unfolding check_receipts
check_receipts-HasReceipts Step.agg req w =
    Holds-if (λ done. HasReceipts Step.agg req) (is_empty req.receipt_inputs || req.single_node)
      (finish_with (invalid req "receipt_inputs should not empty")) (pure (tt {0})) w (λ e. refl)
      (λ e. ground arith)
check_receipts-HasReceipts Step.init req w = tt
check_receipts-HasReceipts Step.split req w = tt
check_receipts-HasReceipts Step.prove req w = tt
check_receipts-HasReceipts Step.snark req w = tt
check_receipts-HasReceipts Step.end req w = tt

-- Where the receipts of a request are put.
abbrev pub receipts_file : String → String
receipts_file dir = join (join dir "input_stream") "receipt_inputs"

abbrev pub AreStored : String → Step → GenerateProofRequest → Inputs → Type 0
AreStored dir step req inputs =
    HasReceipts step req × AtPath (receipts_file dir) req.receipt_inputs inputs.receipt_inputs

store_inputs-AreStored :
    (outside : Outside) (step : Step) (dir : String) (req : GenerateProofRequest) (w : World)
    → Holds (AreStored dir step req) (store_inputs outside step dir req w).1
unfolding store_inputs
store_inputs-AreStored outside step dir req w =
    Holds->>= Any Stored (write_streams dir req) _ w (write_streams-Any dir req w) λ streams w₁ h₁.
      Holds->>= (λ done. HasReceipts step req) Stored (check_receipts step req) _ w₁
        (check_receipts-HasReceipts step req w₁)
        λ done w₂ h₂.
          Holds->>= (AtPath (receipts_file dir) req.receipt_inputs) Stored
            (write_receipts outside (receipts_file dir) req.receipt_inputs) _ w₂
            (write_receipts-AtPath outside (receipts_file dir) req.receipt_inputs w₂)
            λ path w₃ h₃.
              Holds->>= (AtPath _ req.receipts) Stored (write_receipts outside _ req.receipts) _ w₃
                (write_receipts-AtPath outside _ req.receipts w₃) (λ receipts w₄ h₄. (h₂, h₃))
  where
    Stored : Inputs → Type 0
    Stored = AreStored dir step req

write_public_values-Any :
    (backend : Backend) (step : Step) (dir : String) (w : World)
    → Holds Any (write_public_values backend step dir w).1
unfolding write_public_values
write_public_values-Any backend Step.agg dir w = Holds-put (join dir _) [] w
write_public_values-Any backend Step.init dir w = tt
write_public_values-Any backend Step.split dir w = tt
write_public_values-Any backend Step.prove dir w = tt
write_public_values-Any backend Step.snark dir w = tt
write_public_values-Any backend Step.end dir w = tt

make_work_dirs-Any :
    (backend : Backend) (step : Step) (dir : String) (w : World)
    → Holds Any (make_work_dirs backend step dir w).1
unfolding make_work_dirs
make_work_dirs-Any backend step dir w = Holds-make_dir-then Any _ _ w λ w₁.
    Holds-make_dir-then Any _ _ w₁ λ w₂. Holds-make_dir-then Any _ _ w₂ λ w₃.
      Holds-make_dir-then Any _ _ w₃ λ w₄.
        Holds->>= Any Any (write_public_values backend step (join dir "wrap")) _ w₄
          (write_public_values-Any backend step (join dir "wrap") w₄)
          (λ done w₅ h. Holds-make_dir _ w₅)

prover_num-bounds :
    (config : RuntimeConfig) (n : ℕ)
    → (prover_num config n ≤ length config.prover_addrs)
      × (0 < length config.prover_addrs → 0 < prover_num config n)
unfolding prover_num
prover_num-bounds config n = ground arith

-- A request and the user and the task that come of it.
pub record IsPrepared (outside : Outside) (backend : Backend) (config : RuntimeConfig)
    (db : Database) (req : GenerateProofRequest) (made : String × GenerateTask) : Type 0 where
  pub sized : IsSized backend req
  pub listed : IsListed outside db req made.0
  pub from : IsFrom (from_code req) made.1.from_step
  pub target : IsTarget (target_code req) made.1.target_step
  pub named : made.1.proof_id ≡ req.proof_id
  pub bounded : made.1.max_prover_num ≤ length config.prover_addrs
  pub some_node : 0 < length config.prover_addrs → 0 < made.1.max_prover_num
  pub block_no : made.1.block_no ≡ some (block_no_of req)
  pub no_program : made.1.program ≡ none
  pub has_receipts : HasReceipts made.1.from_step req
  pub stored :
      is_empty req.receipt_inputs ≡ false
      → made.1.receipt_inputs_path ≡ receipts_file (proof_dir config req.proof_id)

pub prepare-IsPrepared :
    (outside : Outside) (backend : Backend) (config : RuntimeConfig) (db : Database)
    (req : GenerateProofRequest) (w : World)
    → Holds (IsPrepared outside backend config db req) (prepare outside backend config db req w).1
unfolding prepare
prepare-IsPrepared outside backend config db req w =
    Holds->>= (IsAdmitted outside backend db req) Prepared (admit outside backend db req) _ w
      (admit-IsAdmitted outside backend db req w)
      λ admission w₁ h₁.
        Holds->>= Any Prepared (choose_elf outside config.base_dir admission.from_step req) _ w₁
          (choose_elf-Any outside config.base_dir admission.from_step req w₁)
          λ elf w₂ h₂.
            Holds->>= (AreStored dir admission.from_step req) Prepared
              (store_inputs outside admission.from_step dir req) _ w₂
              (store_inputs-AreStored outside admission.from_step dir req w₂)
              λ inputs w₃ h₃.
                Holds->>= Any Prepared (make_work_dirs backend admission.from_step dir) _ w₃
                  (make_work_dirs-Any backend admission.from_step dir w₃)
                  λ done w₄ h₄. record {
                    sized = h₁.sized;
                    listed = h₁.listed;
                    from = h₁.from;
                    target = h₁.target;
                    named = refl;
                    bounded = (prover_num-bounds config req.max_prover_num).0;
                    some_node = (prover_num-bounds config req.max_prover_num).1;
                    block_no = refl;
                    no_program = refl;
                    has_receipts = h₃.0;
                    stored = h₃.1;
                  }
  where
    dir : String
    dir = proof_dir config req.proof_id

    Prepared : String × GenerateTask → Type 0
    Prepared = IsPrepared outside backend config db req
