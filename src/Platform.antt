-- ===== src/Platform.antt =====
-- What the service stands on: panics as values, the clock, the file store, uuids and bincode.
-- Models common/src/file.rs (`new`, `is_s3_path`, the two `read`s, `read_dir`) and `safe_read` of
-- proof-service/src/stage/mod.rs. The stores themselves, uuid and bincode are parameters.
use Prim.Native.String.{◌++◌ as ◌<>◌}
use text.Mathlib.Text.{starts_with}
use zkm_prover.Base.{
  ℕ, suc, String, ◌≡◌, ◌⊎◌, inl, inr, refl, subst, Bool, true, false, Option, none, some, List, [],
  str_eq, if◌then◌else◌,
}

abbrev pub Bytes : Type 0
Bytes = List ℕ

-- Why a call of the service stops its task.
pub data Panic : Type 0 where
  assertion_failed unwrap_none expect_failed index_out_of_bounds subtract_overflow : Panic
  not_yet_implemented entered_unreachable : Panic

pub data Result {ℓ} (T : Type ℓ) : Type ℓ where
  panic : Panic → Result T
  ok : T → Result T

-- What comes after a panic does not run.
infixl 5 ◌>>=◌ ◌>>◌
abbrev pub ◌>>=◌ {ℓ κ} : {S : Type ℓ} {T : Type κ} (m : Result S) → (S → Result T) → Result T
panic reason >>= next = panic reason
ok value >>= next = next value

abbrev pub ◌>>◌ {ℓ} : {T : Type ℓ} (m : Result (Unit {0})) → Result T → Result T
m >> next = m >>= λ done. next

-- `assert!(b)`
abbrev pub assert : Bool → Panic → Result (Unit {0})
assert b e = if b then ok tt else panic e

-- `o.unwrap()` and `o.expect(…)`
abbrev pub unwrap {ℓ} : {A : Type ℓ} → Option A → Panic → Result A
unwrap (some a) e = ok a
unwrap none e = panic e

-- A bind that succeeds, taken apart.
pub >>=-eq-ok {ℓ κ} :
    {S : Type ℓ} {T : Type κ} (m : Result S) (next : S → Result T) {value : T}
    → (m >>= next) ≡ ok value
    → (s : S) × (m ≡ ok s) × (next s ≡ ok value)
>>=-eq-ok (panic reason) next e = cc
>>=-eq-ok (ok s) next e = (s, refl, e)

-- An `unwrap` that succeeds.
pub unwrap-eq-ok {ℓ} :
    {A : Type ℓ} (o : Option A) (e : Panic) {a : A} → unwrap o e ≡ ok a → o ≡ some a
unwrap-eq-ok none e h = cc
unwrap-eq-ok (some a) e h = cc

-- How a call ends.
pub Result-cases {ℓ} :
    {T : Type ℓ} (m : Result T) → ((e : Panic) × (m ≡ panic e)) ⊎ ((t : T) × (m ≡ ok t))
Result-cases (panic reason) = inl (reason, refl)
Result-cases (ok t) = inr (t, refl)

-- Unless it panics, the result has the property.
abbrev pub Ensures {ℓ κ} : {T : Type ℓ} → (T → Type κ) → Result T → Type κ
Ensures P (panic reason) = Unit
Ensures P (ok value) = P value

pub Ensures->>= {ℓ κ ν} :
    {S : Type ℓ} {T : Type κ} {P : S → Type ν} (Q : T → Type ν) (m : Result S) (next : S → Result T)
    → Ensures P m
    → ((s : S) → P s → Ensures Q (next s))
    → Ensures Q (m >>= next)
Ensures->>= Q (panic reason) next h k = tt
Ensures->>= Q (ok s) next h k = k s h

-- The same with the value's origin at hand.
pub Ensures->>=_eq {ℓ κ ν} :
    {S : Type ℓ} {T : Type κ} (Q : T → Type ν) (m : Result S) (next : S → Result T)
    → ((s : S) → m ≡ ok s → Ensures Q (next s))
    → Ensures Q (m >>= next)
Ensures->>=_eq Q (panic reason) next k = tt
Ensures->>=_eq Q (ok s) next k = k s refl

pub Ensures-ok {ℓ κ} :
    {T : Type ℓ} (P : T → Type κ) (m : Result T) (t : T) → Ensures P m → m ≡ ok t → P t
Ensures-ok P m t h e = subst (Ensures P) e h

pub Ensures-mono {ℓ κ} :
    {T : Type ℓ} {P Q : T → Type κ} (m : Result T)
    → Ensures P m
    → ((t : T) → P t → Ensures Q (ok t))
    → Ensures Q m
Ensures-mono (panic reason) h k = tt
Ensures-mono (ok t) h k = k t h

pub Ensures-if {ℓ κ} :
    {T : Type ℓ} (P : T → Type κ) (b : Bool) (m n : Result T)
    → Ensures P m
    → Ensures P n
    → Ensures P (if b then m else n)
Ensures-if P true m n h k = h
Ensures-if P false m n h k = k

-- Nothing is known of a result.
pub Ensures-any {ℓ} : {T : Type ℓ} (m : Result T) → Ensures (λ t. Unit {0}) m
Ensures-any (panic reason) = tt
Ensures-any (ok t) = tt

-- Third-party code that the service calls.
pub record Env : Type 0 where
  -- The uuids that `Uuid::new_v4` gives, in the order drawn.
  pub uuid : ℕ → String
  -- `bincode::deserialize::<Vec<Vec<u8>>>`
  pub deserialize : Bytes → Option (List Bytes)

-- Uuids do not repeat.
abbrev pub IsFresh : Env → Type 0
IsFresh env = (i j : ℕ) → env.uuid i ≡ env.uuid j → i ≡ j

-- What changes from call to call: the clock in seconds, the uuids drawn so far, the local files and
-- the S3 objects by path, the file names in a
-- directory, which paths can be written, and for which S3 objects a question is answered.
pub record World : Type 0 where
  pub now : ℕ
  pub drawn : ℕ
  pub files : String → Option Bytes
  pub objects : String → Option Bytes
  pub dirs : String → Option (List String)
  pub writable : String → Bool
  pub answers : String → Bool

unfoldable pub is_s3_path : String → Bool
is_s3_path path = starts_with path "s3://"

-- `common::file::new(path).read()`; `none` is an error.
unfoldable pub read : World → String → Option Bytes
unfolding is_s3_path
read w path = if is_s3_path path then w.objects path else w.files path

-- `std::fs::read`, with nothing for a file that cannot be read.
unfoldable pub safe_read : World → String → Bytes
safe_read w path = elim (w.files path) [ some content ↦ content | none ↦ [] ]

-- The world with a local file in place.
abbrev pub written : World → String → Bytes → World
written w path content = record w { files = λ p. if str_eq p path then some content else w.files p }

-- `File::create(path)` and `write_all`; the source panics where the file cannot be opened.
unfoldable pub write : World → String → Bytes → Result World
write w path content = if w.writable path then ok (written w path content) else panic expect_failed

-- `format!("{a}/{b}")`
abbrev pub join : String → String → String
join a b = a <> ("/" <> b)

-- One more uuid is drawn.
abbrev pub draw : World → World
draw w = record w { drawn = suc w.drawn }
