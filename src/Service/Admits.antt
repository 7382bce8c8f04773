-- ===== src/Service/Admits.antt =====
-- What the checks of `generate_proof` ensure of a request that they let through.
use Prim.Native.String.{String}
use zkm_prover.Base.{
  ℕ, ◌≡◌, refl, ◌≤◌, false, not, ◌&&◌, Option, none, some, List, [], ◌∷◌, ◌==◌, arith, ==_iff,
}
use zkm_prover.Platform.{World}
use zkm_prover.Tasks.{Step}
use zkm_prover.Stage.{Backend}
use zkm_prover.Database.{Database, get_user}
use zkm_prover.Service.{GenerateProofRequest, Outside, pure, finish_with, invalid}
use zkm_prover.Service.Checks.{
  valid_seg_size, check_seg_size, verify_signature, first_user, check_address, check_user,
  from_code, target_code, check_from_step, check_target_step, Admission, admit,
}
use zkm_prover.Service.Holds.{Holds, Holds->>=, Holds-if}

-- In the build with the feature prover the segments of a proof that is not composite have a size
-- from 1024 to 4194304. Nothing is asked of a composite proof, nor in the other build.
abbrev pub IsSized : Backend → GenerateProofRequest → Type 0
IsSized Backend.prover req =
    req.composite_proof ≡ false → (1024 ≤ req.seg_size) × (req.seg_size ≤ 4194304)
IsSized Backend.prover_v2 req = Unit

-- The request is signed by an address of the white list.
abbrev pub IsListed : Outside → Database → GenerateProofRequest → String → Type 0
IsListed outside db req user =
    (address : String) × (verify_signature outside req ≡ some address)
    × (others : List String) × (get_user outside.checksum db address ≡ some (user ∷ others))

abbrev pub IsFrom : ℕ → Step → Type 0
IsFrom code Step.init = code ≡ 0
IsFrom code Step.agg = code ≡ 3
IsFrom code _ = ⊥

abbrev pub IsTarget : ℕ → Step → Type 0
IsTarget code Step.split = code ≡ 1
IsTarget code Step.agg = code ≡ 3
IsTarget code Step.snark = code ≡ 5
IsTarget code _ = ⊥

pub record IsAdmitted (outside : Outside) (backend : Backend) (db : Database)
    (req : GenerateProofRequest) (a : Admission) : Type 0 where
  pub sized : IsSized backend req
  pub listed : IsListed outside db req a.user
  pub from : IsFrom (from_code req) a.from_step
  pub target : IsTarget (target_code req) a.target_step

check_seg_size-IsSized :
    (backend : Backend) (req : GenerateProofRequest) (w : World)
    → Holds (λ done. IsSized backend req) (check_seg_size backend req w).1
unfolding check_seg_size valid_seg_size
check_seg_size-IsSized Backend.prover req w =
    Holds-if (λ done. IsSized Backend.prover req)
      (not req.composite_proof && not (valid_seg_size req.seg_size))
      (finish_with (invalid req "invalid seg_size support [1024-4194304]")) (pure (tt {0})) w
      (λ e. refl) (λ e composite. ground arith)
check_seg_size-IsSized Backend.prover_v2 req w = tt

module _ (outside : Outside) (db : Database) (req : GenerateProofRequest) (w : World) where
  first_user-IsListed :
      (address : String) (users : Option (List String))
      → verify_signature outside req ≡ some address
      → get_user outside.checksum db address ≡ users
      → Holds (IsListed outside db req) (first_user req users w).1
  unfolding first_user
  first_user-IsListed address none signed found = tt
  first_user-IsListed address (some []) signed found = refl
  first_user-IsListed address (some (user ∷ users)) signed found = (address, signed, users, found)

  check_address-IsListed :
      (signer : Option String)
      → verify_signature outside req ≡ signer
      → Holds (IsListed outside db req) (check_address outside db req signer w).1
  unfolding check_address
  check_address-IsListed none signed = refl
  check_address-IsListed (some address) signed =
      first_user-IsListed address (get_user outside.checksum db address) signed refl

  check_user-IsListed : Holds (IsListed outside db req) (check_user outside db req w).1
  unfolding check_user
  check_user-IsListed = check_address-IsListed (verify_signature outside req) refl

  check_from_step-IsFrom : Holds (IsFrom (from_code req)) (check_from_step req w).1
  unfolding check_from_step
  check_from_step-IsFrom =
      Holds-if _ (from_code req == 0) _ _ w (==_iff _ _).0
        λ other. Holds-if _ (from_code req == 3) _ _ w (==_iff _ _).0 (λ e. refl)

  check_target_step-IsTarget : Holds (IsTarget (target_code req)) (check_target_step req w).1
  unfolding check_target_step
  check_target_step-IsTarget = Holds-if _ (target_code req == 1) _ _ w (==_iff _ _).0 λ other₁.
      Holds-if _ (target_code req == 3) _ _ w (==_iff _ _).0
        λ other₃. Holds-if _ (target_code req == 5) _ _ w (==_iff _ _).0 (λ e. refl)

pub admit-IsAdmitted :
    (outside : Outside) (backend : Backend) (db : Database) (req : GenerateProofRequest) (w : World)
    → Holds (IsAdmitted outside backend db req) (admit outside backend db req w).1
unfolding admit
admit-IsAdmitted outside backend db req w =
    Holds->>= (λ done. IsSized backend req) Admitted (check_seg_size backend req) _ w
      (check_seg_size-IsSized backend req w)
      λ done w₁ sized.
        Holds->>= (IsListed outside db req) Admitted (check_user outside db req) _ w₁
          (check_user-IsListed outside db req w₁)
          λ user w₂ listed.
            Holds->>= (IsFrom (from_code req)) Admitted (check_from_step req) _ w₂
              (check_from_step-IsFrom outside db req w₂)
              λ from_step w₃ from.
                Holds->>= (IsTarget (target_code req)) Admitted (check_target_step req) _ w₃
                  (check_target_step-IsTarget outside db req w₃)
                  λ target_step w₄ target. record {
                    sized = sized;
                    listed = listed;
                    from = from;
                    target = target;
                  }
  where
    Admitted : Admission → Type 0
    Admitted = IsAdmitted outside backend db req
