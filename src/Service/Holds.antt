-- ===== src/Service/Holds.antt =====
-- What a part of `generate_proof` ensures: of its value where it goes on, and where it ends the call,
-- that the answer is no acceptance.
use Prim.Native.String.{String}
use zkm_prover.Base.{◌≡◌, refl, Bool, true, false, if◌then◌else◌}
use zkm_prover.Platform.{Bytes, Result, panic, ok, World}
use zkm_prover.Files.{write_file, create_dir_all}
use zkm_prover.Service.{
  Reply, responded, internal, panicked, Outcome, go, stop, M, after, ◌>>=◌, ◌>>◌, settle, put,
  make_dir, status_invalid_parameter,
}

abbrev pub IsRefusal : Reply → Type 0
IsRefusal (responded r) = r.status ≡ status_invalid_parameter
IsRefusal internal = Unit
IsRefusal (panicked reason) = Unit

abbrev pub Holds {ℓ} : {A : Type ℓ} → (A → Type 0) → Outcome A → Type 0
Holds P (go a) = P a
Holds P (stop reply) = IsRefusal reply

-- Nothing is asked of the value.
abbrev pub Any {ℓ} : {A : Type ℓ} → A → Type 0
Any a = Unit

Holds-after {ℓ κ} :
    {A : Type ℓ} {B : Type κ} (P : A → Type 0) (Q : B → Type 0) (w : World) (o : Outcome A)
    (next : A → M B)
    → Holds P o
    → ((a : A) (w' : World) → P a → Holds Q (next a w').1)
    → Holds Q (after w o next).1
Holds-after P Q w (go a) next h k = k a w h
Holds-after P Q w (stop reply) next h k = h

pub Holds->>= {ℓ κ} :
    {A : Type ℓ} {B : Type κ} (P : A → Type 0) (Q : B → Type 0) (m : M A) (next : A → M B)
    (w : World)
    → Holds P (m w).1
    → ((a : A) (w' : World) → P a → Holds Q (next a w').1)
    → Holds Q ((m >>= next) w).1
Holds->>= P Q m next w h k = Holds-after P Q (m w).0 (m w).1 next h k

pub Holds-if {ℓ} :
    {A : Type ℓ} (P : A → Type 0) (b : Bool) (m n : M A) (w : World)
    → (b ≡ true → Holds P (m w).1)
    → (b ≡ false → Holds P (n w).1)
    → Holds P ((if b then m else n) w).1
Holds-if P true m n w h k = h refl
Holds-if P false m n w h k = k refl

Holds-settle : (w : World) (r : Result (World × Bool)) → Holds Any (settle w r).1
Holds-settle w (panic reason) = tt
Holds-settle w (ok (w', true)) = tt
Holds-settle w (ok (w', false)) = tt

pub Holds-put : (path : String) (content : Bytes) (w : World) → Holds Any (put path content w).1
unfolding put
Holds-put path content w = Holds-settle w (write_file w path content)

pub Holds-make_dir : (path : String) (w : World) → Holds Any (make_dir path w).1
unfolding make_dir
Holds-make_dir path w = Holds-settle w (create_dir_all w path)

-- A write before the rest.
pub Holds-put-then {ℓ} :
    {A : Type ℓ} (P : A → Type 0) (path : String) (content : Bytes) (next : M A) (w : World)
    → ((w' : World) → Holds P (next w').1)
    → Holds P ((put path content >> next) w).1
Holds-put-then P path content next w k =
    Holds->>= Any P (put path content) (λ done. next) w (Holds-put path content w) (λ a w' h. k w')

pub Holds-make_dir-then {ℓ} :
    {A : Type ℓ} (P : A → Type 0) (path : String) (next : M A) (w : World)
    → ((w' : World) → Holds P (next w').1)
    → Holds P ((make_dir path >> next) w).1
Holds-make_dir-then P path next w k =
    Holds->>= Any P (make_dir path) (λ done. next) w (Holds-make_dir path w) (λ a w' h. k w')
