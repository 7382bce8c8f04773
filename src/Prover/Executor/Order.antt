-- ===== src/Prover/Executor/Order.antt =====
-- The segments that one thread would make, taking the checkpoints of a split in their order.
pub mod Numbers
pub mod Row
pub mod Writes
use zkm_prover.Base.{
  ℕ, zero, suc, ◌+◌, ◌≡◌, refl, ap, ◌∙◌, sym, Bool, List, [], ◌∷◌, ◌++◌, append-nil, append_assoc,
  map, length, arith, some,
}
use zkm_prover.Platform.{Result, ok, ◌>>=◌, >>=-eq-ok}
use zkm_prover.Prover.Machine.{ExecutionRecord, Segment, of_record, Machine, TracesOne}
use zkm_prover.Prover.Executor.{
  Shared, take_turn, stamp, first_segment, advance, advance_deferred, after_batch, put_off,
}
use zkm_prover.Prover.Executor.Run.{Checkpoint}
use Numbers.{length-map}

pub ok_pair :
    {A B : Type 0} {a c : A} {b d : B}
    → ◌≡◌ {A = Result (A × B)} (ok (a, b)) (ok (c, d))
    → (a ≡ c) × (b ≡ d)
ok_pair h = (cc, cc)

module _ {S E : Type 0} (m : Machine S E) where
  -- One thread that takes every turn.
  unfoldable pub run_all : List (Checkpoint S) → Shared E → Result (Shared E × List (Segment S E))
  run_all [] shared = ok (shared, [])
  run_all ((exe_state, done) ∷ cs) shared = do
    (shared', segments) ← take_turn m exe_state done shared
    (shared'', rest) ← run_all cs shared'
    ok (shared'', segments ++ rest)

  -- The last turn.
  pub run_all-append :
      (cs : List (Checkpoint S)) (exe_state : S) (done : Bool) (s₀ s₁ s₂ : Shared E)
      (front back : List (Segment S E))
      → run_all cs s₀ ≡ ok (s₁, front)
      → take_turn m exe_state done s₁ ≡ ok (s₂, back)
      → run_all (cs ++ (exe_state, done) ∷ []) s₀ ≡ ok (s₂, front ++ back)
  unfolding run_all
  run_all-append [] exe_state done s₀ s₁ s₂ front back ran turn =
      let (same, empty) = ok_pair ran in
      rw (same, turn, append-nil back) (ap (λ l. ok (s₂, l ++ back)) empty)
  run_all-append ((s, d) ∷ cs) exe_state done s₀ s₁ s₂ front back ran turn =
      let ((s', segments), first, later) = >>=-eq-ok (take_turn m s d s₀) _ ran in
      let ((s'', rest), ran', whole) = >>=-eq-ok (run_all cs s') _ later in
      let (same, parts) = ok_pair whole in
      let ih =
        run_all-append cs exe_state done s' s₁ s₂ rest back
          (ran' ∙ ap (λ (u : Shared E). ok (u, rest)) same) turn in
      rw (first, ih)
        (ap (λ l. ok (s₂, l)) (sym (append_assoc segments rest back) ∙ ap (λ l. l ++ back) parts))

  -- A turn counts the segments that it makes.
  pub take_turn-length :
      (one : TracesOne m) (exe_state : S) (done : Bool) (s₁ s₂ : Shared E)
      (segments : List (Segment S E))
      → take_turn m exe_state done s₁ ≡ ok (s₂, segments)
      → s₂.segment_index ≡ s₁.segment_index + length segments
  unfolding take_turn
  take_turn-length one exe_state done s₁ s₂ segments turn =
      let (r, traced) = one exe_state in
      let (shared, made) = ok_pair (rw traced at turn) in
      omega (
        arith,
        ap (λ (u : Shared E). u.segment_index) shared,
        ap length made,
        length-map {A = ExecutionRecord E} {B = Segment S E} of_record,
      )
