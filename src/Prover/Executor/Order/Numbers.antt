-- ===== src/Prover/Executor/Order/Numbers.antt =====
-- Lists read by position, and the numbers of the segments that are still to be written.
use mathlib.Core.List.{flatten}
use zkm_prover.Base.{
  ℕ, zero, suc, ◌+◌, ◌≡◌, ◌≤◌, ◌<◌, ◌⊎◌, inl, inr, refl, ap, sym, ◌∙◌, subst, Bool, some, List, [],
  ◌∷◌, ◌++◌, append_assoc, map, map-append, length, length-append, get_elem?, count_if, All, ◌==◌,
  arith,
}
use zkm_prover.Platform.{Bytes}
use zkm_prover.Prover.Machine.{Segment, Machine}
use zkm_prover.Prover.Executor.{numbered}

module _ {A : Type 0} where
  pub get_elem?-append_left :
      (xs ys : List A) (i : ℕ) {a : A} → get_elem? xs i ≡ some a → get_elem? (xs ++ ys) i ≡ some a
  get_elem?-append_left [] ys i h = cc
  get_elem?-append_left (x ∷ xs) ys zero h = h
  get_elem?-append_left (x ∷ xs) ys (suc i) h = get_elem?-append_left xs ys i h

  -- A position of the first part, or behind it and inside.
  pub get_elem?-append_cases :
      (xs ys : List A) (i : ℕ) {a : A}
      → get_elem? (xs ++ ys) i ≡ some a
      → (get_elem? xs i ≡ some a) ⊎ ((length xs ≤ i) × (i < length xs + length ys))
  get_elem?-append_cases [] [] i h = cc
  get_elem?-append_cases [] (y ∷ ys) zero h = inr (omega arith, omega arith)
  get_elem?-append_cases [] (y ∷ ys) (suc i) h = elim (get_elem?-append_cases [] ys i h) [
    | inl none_there ↦ cc
    | inr inside ↦ inr (omega arith, omega (arith, inside.1))
  ]
  get_elem?-append_cases (x ∷ xs) ys zero h = inl h
  get_elem?-append_cases (x ∷ xs) ys (suc i) h = elim (get_elem?-append_cases xs ys i h) [
    | inl there ↦ inl there
    | inr inside ↦ inr (omega (arith, inside.0), omega (arith, inside.1))
  ]

  pub get_elem?-length :
      (xs : List A) (a : A) (ys : List A) → get_elem? (xs ++ a ∷ ys) (length xs) ≡ some a
  get_elem?-length [] a ys = refl
  get_elem?-length (x ∷ xs) a ys = get_elem?-length xs a ys

  pub flatten-append : (xs ys : List (List A)) → flatten (xs ++ ys) ≡ flatten xs ++ flatten ys
  unfolding flatten
  flatten-append [] ys = refl
  flatten-append (x ∷ xs) ys =
      ap (λ l. x ++ l) (flatten-append xs ys) ∙ sym (append_assoc x (flatten xs) (flatten ys))

pub length-map : {A B : Type 0} (f : A → B) (xs : List A) → length (map f xs) ≡ length xs
length-map f [] = refl
length-map f (x ∷ xs) = ap suc (length-map f xs)

-- The writes of a segment.
abbrev pub is_for : ℕ → ℕ × Bytes → Bool
is_for j write = j == write.0

-- Each write is of the segment that its number says.
abbrev pub IsOf : List Bytes → ℕ × Bytes → Type 0
IsOf contents write = get_elem? contents write.0 ≡ some write.1

module _ {S E : Type 0} (m : Machine S E) where
  abbrev pub contents : List (Segment S E) → List Bytes
  contents segments = map m.encode segments

  pub numbered-IsOf :
      (old segments : List (Segment S E))
      → All (IsOf (contents (old ++ segments))) (numbered m (length old) segments)
  numbered-IsOf old [] = tt
  numbered-IsOf old (s ∷ ss) = (
    rw (map-append m.encode old (s ∷ ss), sym (length-map m.encode old))
        (get_elem?-length (contents old) (m.encode s) (contents ss)),
    subst (λ (l : List (Segment S E)). All (IsOf (contents l)) (numbered m (suc (length old)) ss))
        (append_assoc old (s ∷ []) ss)
        (subst (λ (n : ℕ). All (IsOf (contents ((old ++ s ∷ []) ++ ss))) (numbered m n ss))
          (omega (arith, length-append old (s ∷ []))) (numbered-IsOf (old ++ s ∷ []) ss)),
  )

  pub count_if-numbered :
      (base j : ℕ) (segments : List (Segment S E))
      → base ≤ j
      → j < base + length segments
      → 0 < count_if (is_for j) (numbered m base segments)
  count_if-numbered base j [] h k = absurd (omega arith)
  count_if-numbered base j (s ∷ ss) h k = ground (arith, count_if-numbered (suc base) j ss)
