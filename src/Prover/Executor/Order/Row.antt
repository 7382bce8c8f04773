-- ===== src/Prover/Executor/Order/Row.antt =====
-- The numbers of the checkpoints on their way to a turn.
use zkm_prover.Base.{ℕ, suc, ◌+◌, ◌≡◌, refl, ap, sym, List, [], ◌∷◌, ◌++◌, length, arith}
use zkm_prover.Prover.Executor.Run.{Checkpoint}

-- The checkpoints on their way have the numbers from `n` on, up to `k`.
abbrev pub IsRow : {S : Type 0} → ℕ → List (ℕ × Checkpoint S) → ℕ → Type 0
IsRow n [] k = n ≡ k
IsRow n ((i, c) ∷ cs) k = (i ≡ n) × IsRow (suc n) cs k

module _ {S : Type 0} where
  pub IsRow-append :
      (n k : ℕ) (cs : List (ℕ × Checkpoint S)) (c : Checkpoint S)
      → IsRow n cs k
      → IsRow n (cs ++ (k, c) ∷ []) (suc k)
  IsRow-append n k [] c h = (sym h, ap suc h)
  IsRow-append n k ((i, d) ∷ cs) c h = (h.0, IsRow-append (suc n) k cs c h.1)

  IsRow-le : (n k : ℕ) (cs : List (ℕ × Checkpoint S)) → IsRow n cs k → n + length cs ≡ k
  IsRow-le n k [] h = omega (arith, h)
  IsRow-le n k ((i, c) ∷ cs) h = omega (arith, IsRow-le (suc n) k cs h.1)

  -- Behind others in the row a number is a later one.
  IsRow-later :
      (n k i : ℕ) (before : List (ℕ × Checkpoint S)) (c : Checkpoint S)
      (behind : List (ℕ × Checkpoint S))
      → IsRow n (before ++ (i, c) ∷ behind) k
      → i ≡ n + length before
  IsRow-later n k i [] c behind h = omega (arith, h.0)
  IsRow-later n k i ((j, d) ∷ before) c behind h =
      omega (arith, IsRow-later (suc n) k i before c behind h.1)

  -- The one whose turn it is stands first.
  pub IsRow-first :
      (n k i : ℕ) (before : List (ℕ × Checkpoint S)) (c : Checkpoint S)
      (behind : List (ℕ × Checkpoint S))
      → IsRow n (before ++ (i, c) ∷ behind) k
      → i ≡ n
      → before ≡ []
  IsRow-first n k i [] c behind h e = refl
  IsRow-first n k i (b ∷ before) c behind h e =
      absurd (omega (arith, IsRow-later n k i (b ∷ before) c behind h))
