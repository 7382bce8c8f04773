-- ===== src/Stage/Chunks.antt =====
-- `slice::chunks`: non-empty slices of `size` elements, the last one shorter. A slice is its first
-- element and the rest.
use zkm_prover.Base.{
  ℕ, zero, suc, ◌+◌, ◌-◌, ◌/◌, ◌≤◌, ◌≡◌, refl, ap, ◌∙◌, List, [], ◌∷◌, ◌++◌, length, take, drop,
  take-append-drop, length-drop, arith,
}

module _ {ℓ} {A : Type ℓ} where
  -- The fuel is the length: each slice takes an element at least.
  chunks_on : ℕ → ℕ → List A → List (A × List A)
  chunks_on zero size xs = []
  chunks_on (suc fuel) size [] = []
  chunks_on (suc fuel) size (x ∷ xs) =
      (x, take (size - 1) xs) ∷ chunks_on fuel size (drop (size - 1) xs)

  unfoldable pub chunks : ℕ → List A → List (A × List A)
  unfolding chunks_on
  chunks size xs = chunks_on (length xs) size xs

  -- A slice as a list.
  abbrev pub slice : A × List A → List A
  slice (x, xs) = x ∷ xs

  abbrev pub slices : List (A × List A) → List A
  slices [] = []
  slices (c ∷ cs) = slice c ++ slices cs

  slices-chunks_on :
      (fuel size : ℕ) (xs : List A) → length xs ≤ fuel → slices (chunks_on fuel size xs) ≡ xs
  unfolding chunks_on
  slices-chunks_on zero size [] h = refl
  slices-chunks_on zero size (x ∷ xs) h = absurd (omega arith)
  slices-chunks_on (suc fuel) size [] h = refl
  slices-chunks_on (suc fuel) size (x ∷ xs) h = ap (◌∷◌ x) (
      ap (◌++◌ (take (size - 1) xs))
        (slices-chunks_on fuel size (drop (size - 1) xs) (omega (arith, length-drop (size - 1) xs)))
      ∙ take-append-drop (size - 1) xs)

  -- The slices in a row are the list.
  pub slices-chunks : (size : ℕ) (xs : List A) → slices (chunks size xs) ≡ xs
  unfolding chunks
  slices-chunks size xs = slices-chunks_on (length xs) size xs (omega arith)

  length-chunks_on_two :
      (fuel : ℕ) (xs : List A)
      → length xs ≤ fuel
      → length (chunks_on fuel 2 xs) ≡ (length xs + 1) / 2
  unfolding chunks_on
  length-chunks_on_two zero [] h = refl
  length-chunks_on_two zero (x ∷ xs) h = absurd (omega arith)
  length-chunks_on_two (suc fuel) [] h = refl
  length-chunks_on_two (suc fuel) (x ∷ []) h = omega (arith, length-chunks_on_two fuel [])
  length-chunks_on_two (suc fuel) (x ∷ y ∷ xs) h =
      omega (arith, length-chunks_on_two fuel xs (omega arith))

  -- By two, there are half as many slices, rounded up.
  pub length-chunks_two : (xs : List A) → length (chunks 2 xs) ≡ (length xs + 1) / 2
  unfolding chunks
  length-chunks_two xs = length-chunks_on_two (length xs) xs (omega arith)

  length-chunks_on_one :
      (fuel : ℕ) (xs : List A) → length xs ≤ fuel → length (chunks_on fuel 1 xs) ≡ length xs
  unfolding chunks_on
  length-chunks_on_one zero [] h = refl
  length-chunks_on_one zero (x ∷ xs) h = absurd (omega arith)
  length-chunks_on_one (suc fuel) [] h = refl
  length-chunks_on_one (suc fuel) (x ∷ xs) h = ap suc (length-chunks_on_one fuel xs (omega arith))

  pub length-chunks_one : (xs : List A) → length (chunks 1 xs) ≡ length xs
  unfolding chunks
  length-chunks_one xs = length-chunks_on_one (length xs) xs (omega arith)
