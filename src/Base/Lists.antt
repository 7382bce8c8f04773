-- ===== src/Base/Lists.antt =====
-- Lists measured, cut and tested by native numbers and Boolean predicates.
use Prim.Native.Nat.{ℕ, zero, suc, ◌+◌, ◌-◌, ◌≤◌, min}
use mathlib.Core.Path.{◌≡◌, refl, ap}
use mathlib.Core.Bool.{Bool, true, false, ◌&&◌, ◌||◌}
use mathlib.Core.List.{List, [], ◌∷◌, ◌++◌}
use mathlib.Core.Option.{Option, none, some}
use native.Mathlib.Omega.{arith}
use zkm_prover.Base.Tests.{if◌then◌else◌}

module _ {ℓ} {A : Type ℓ} where
  abbrev pub length : List A → ℕ
  length [] = 0
  length (x ∷ xs) = suc (length xs)

  abbrev pub is_empty : List A → Bool
  is_empty [] = true
  is_empty (x ∷ xs) = false

  abbrev pub take : ℕ → List A → List A
  take zero xs = []
  take (suc n) [] = []
  take (suc n) (x ∷ xs) = x ∷ take n xs

  abbrev pub drop : ℕ → List A → List A
  drop zero xs = xs
  drop (suc n) [] = []
  drop (suc n) (x ∷ xs) = drop n xs

  abbrev pub get_elem? : List A → ℕ → Option A
  get_elem? [] i = none
  get_elem? (x ∷ xs) zero = some x
  get_elem? (x ∷ xs) (suc i) = get_elem? xs i

  -- A write out of bounds changes nothing.
  abbrev pub set : List A → ℕ → A → List A
  set [] i v = []
  set (x ∷ xs) zero v = v ∷ xs
  set (x ∷ xs) (suc i) v = x ∷ set xs i v

  -- The indices `start`, `start + 1`, … of a list.
  abbrev pub indices_from : ℕ → List A → List ℕ
  indices_from start [] = []
  indices_from start (x ∷ xs) = start ∷ indices_from (suc start) xs

  abbrev pub all : (A → Bool) → List A → Bool
  all p [] = true
  all p (x ∷ xs) = p x && all p xs

  abbrev pub any : (A → Bool) → List A → Bool
  any p [] = false
  any p (x ∷ xs) = p x || any p xs

  -- `iter().filter(p)`
  abbrev pub keep : (A → Bool) → List A → List A
  keep p [] = []
  keep p (x ∷ xs) = let rest = keep p xs in if p x then x ∷ rest else rest

  -- `iter().find(p)`
  abbrev pub find : (A → Bool) → List A → Option A
  find p [] = none
  find p (x ∷ xs) = if p x then some x else find p xs

  abbrev pub count_if : (A → Bool) → List A → ℕ
  count_if p [] = 0
  count_if p (x ∷ xs) = (if p x then 1 else 0) + count_if p xs

  -- `last_mut()` with one write through it.
  abbrev pub update_last : (A → A) → List A → List A
  update_last f [] = []
  update_last f (x ∷ []) = f x ∷ []
  update_last f (x ∷ y ∷ xs) = x ∷ update_last f (y ∷ xs)

  -- All but the last element.
  abbrev pub but_last : List A → List A
  but_last [] = []
  but_last (x ∷ []) = []
  but_last (x ∷ y ∷ xs) = x ∷ but_last (y ∷ xs)

  pub length-append : (xs ys : List A) → length (xs ++ ys) ≡ length xs + length ys
  length-append [] ys = omega arith
  length-append (x ∷ xs) ys = omega (arith, length-append xs ys)

  pub take-append-drop : (n : ℕ) (xs : List A) → take n xs ++ drop n xs ≡ xs
  take-append-drop zero xs = refl
  take-append-drop (suc n) [] = refl
  take-append-drop (suc n) (x ∷ xs) = ap (◌∷◌ x) (take-append-drop n xs)

  pub length-drop : (n : ℕ) (xs : List A) → length (drop n xs) ≡ length xs - n
  length-drop zero xs = omega arith
  length-drop (suc n) [] = omega arith
  length-drop (suc n) (x ∷ xs) = omega (arith, length-drop n xs)

  pub length-take : (n : ℕ) (xs : List A) → length (take n xs) ≡ min n (length xs)
  length-take zero xs = omega arith
  length-take (suc n) [] = omega arith
  length-take (suc n) (x ∷ xs) = omega (arith, length-take n xs)

  pub count_if-append :
      (p : A → Bool) (xs ys : List A) → count_if p (xs ++ ys) ≡ count_if p xs + count_if p ys
  count_if-append p [] ys = omega arith
  count_if-append p (x ∷ xs) ys = omega (arith, count_if-append p xs ys)

  pub count_if-take-le :
      (p : A → Bool) (n : ℕ) (xs : List A) → count_if p (take n xs) ≤ count_if p xs
  count_if-take-le p zero xs = omega arith
  count_if-take-le p (suc n) [] = omega arith
  count_if-take-le p (suc n) (x ∷ xs) = omega (arith, count_if-take-le p n xs)

  pub length-keep : (p : A → Bool) (xs : List A) → length (keep p xs) ≡ count_if p xs
  length-keep p [] = refl
  length-keep p (x ∷ xs) = ground (arith, length-keep p xs)

  pub all-cons :
      (p : A → Bool) (x : A) (xs : List A)
      → all p (x ∷ xs) ≡ true
      → (p x ≡ true) × (all p xs ≡ true)
  all-cons p x xs h = ground arith

  pub all-append :
      (p : A → Bool) (xs ys : List A) → all p xs ≡ true → all p ys ≡ true → all p (xs ++ ys) ≡ true
  all-append p [] ys h k = k
  all-append p (x ∷ xs) ys h k = ground (arith, all-append p xs ys)

  -- A list that satisfies `p` does so in both parts.
  pub append-all :
      (p : A → Bool) (xs ys : List A)
      → all p (xs ++ ys) ≡ true
      → (all p xs ≡ true) × (all p ys ≡ true)
  append-all p [] ys h = (refl, h)
  append-all p (x ∷ xs) ys h =
      let (here, there) = all-cons p x (xs ++ ys) h in
      let (front, back) = append-all p xs ys there in (rw (here, front), back)

  pub all-keep : (p q : A → Bool) (xs : List A) → all p xs ≡ true → all p (keep q xs) ≡ true
  all-keep p q [] h = refl
  all-keep p q (x ∷ xs) h = ground (arith, all-keep p q xs)

  pub all_mono :
      (p q : A → Bool) (xs : List A)
      → ((x : A) → p x ≡ true → q x ≡ true)
      → all p xs ≡ true
      → all q xs ≡ true
  all_mono p q [] h k = refl
  all_mono p q (x ∷ xs) h k = ground (arith, h x, all_mono p q xs h)

module _ {ℓ κ} {A : Type ℓ} (P : A → Type κ) where
  -- Every element has the property.
  abbrev pub All : List A → Type κ
  All [] = Unit
  All (x ∷ xs) = P x × All xs

  pub All-append : (xs ys : List A) → All xs → All ys → All (xs ++ ys)
  All-append [] ys h k = k
  All-append (x ∷ xs) ys h k = (h.0, All-append xs ys h.1 k)

  pub All-take : (n : ℕ) (xs : List A) → All xs → All (take n xs)
  All-take zero xs h = tt
  All-take (suc n) [] h = tt
  All-take (suc n) (x ∷ xs) h = (h.0, All-take n xs h.1)
