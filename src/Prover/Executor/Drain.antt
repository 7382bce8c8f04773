-- ===== src/Prover/Executor/Drain.antt =====
-- How far the threads of a split are from their end.
use mathlib.Core.WellFounded.{Acc}
use zkm_prover.Base.{
  ℕ, zero, suc, ◌+◌, ◌*◌, ◌≡◌, ◌<◌, ◌⊎◌, inl, inr, refl, ap, sym, ◌∙◌, subst, String, Bool, true,
  some, List, [], ◌∷◌, ◌++◌, length, length-append, some_injective, arith,
}
use zkm_prover.Platform.{Bytes, ok, Result-cases, World}
use zkm_prover.Stage.Segments.{show, segment_path, codes}
use zkm_prover.Stage.Segments.Names.{count_path, temporary}
use zkm_prover.Prover.Machine.{PublicValues, Segment, Machine, TracesOne}
use zkm_prover.Prover.Executor.{Shared, take_turn, write_file, renamed}
use zkm_prover.Prover.Executor.Run.{
  Checkpoint, Threads, Options, start, Step, sends, receives, takes_turn, writes, is_free, Reach,
  here, next,
}
use zkm_prover.Prover.Executor.Order.Row.{IsRow}
use zkm_prover.Prover.Executor.Refines.{Reach-IsSplit}
use zkm_prover.Prover.Executor.Ends.{AreDone, start-IsSplit}

-- How far the checkpoints are from their turns.
abbrev ahead : {S E : Type 0} → Threads S E → ℕ
ahead t = length t.to_come * 3 + length t.channel * 2 + length t.at_work

-- The writes that are left, with one more for each worker.
abbrev left_in : List (List (ℕ × Bytes)) → ℕ
left_in [] = 0
left_in (batch ∷ batches) = suc (length batch) + left_in batches

left_in-append : (xs ys : List (List (ℕ × Bytes))) → left_in (xs ++ ys) ≡ left_in xs + left_in ys
left_in-append [] ys = omega arith
left_in-append (x ∷ xs) ys = omega (arith, left_in-append xs ys)

module _ {S E : Type 0} (m : Machine S E) (opts : Options) where
  -- A step takes a checkpoint nearer to its turn, or writes.
  abbrev Lowers : Threads S E → Threads S E → Type 0
  Lowers t u = (ahead u < ahead t) ⊎ ((ahead u ≡ ahead t) × (left_in u.writing < left_in t.writing))

  Step-Lowers : {t u : Threads S E} → Step m opts t u → Lowers t u
  Step-Lowers (sends t c cs e room) =
      inl (omega (arith, ap length e, length-append t.channel ((t.index, c) ∷ [])))
  Step-Lowers (receives t c cs e room) =
      inl (omega (arith, ap length e, length-append t.at_work (c ∷ [])))
  Step-Lowers (takes_turn t before behind i s d shared new w e now turn written) = inl (
      omega (
        arith,
        ap length e,
        length-append before ((i, (s, d)) ∷ behind),
        length-append before behind,
      ))
  Step-Lowers (writes t before behind others more i content w e written) = inr (
    refl,
    omega (
      arith,
      ap left_in e,
      left_in-append before ((others ++ (i, content) ∷ more) ∷ behind),
      left_in-append before ((others ++ more) ∷ behind),
      length-append others ((i, content) ∷ more),
      length-append others more,
    ),
  )
  Step-Lowers (is_free t before behind e) = inr (
    refl,
    omega (arith, ap left_in e, left_in-append before ([] ∷ behind), left_in-append before behind),
  )

  -- There is no run without end.
  abbrev pub Ends : Threads S E → Type 0
  Ends = Acc (λ u t. Step m opts t u)

  below-Ends : (k n : ℕ) (t : Threads S E) → ahead t < k → left_in t.writing < n → Ends t
  below-Ends zero n t h l = absurd (omega arith)
  below-Ends (suc k) zero t h l = absurd (omega arith)
  below-Ends (suc k) (suc n) t h l = Acc.intro t (λ u step. elim (Step-Lowers step) [
    | inl nearer ↦ below-Ends k (suc (left_in u.writing)) u (omega arith) (omega arith)
    | inr less ↦ below-Ends (suc k) n u (omega (arith, less.0)) (omega (arith, less.1))
  ])

  pub always-Ends : (t : Threads S E) → Ends t
  always-Ends t = below-Ends (suc (ahead t)) (suc (left_in t.writing)) t (omega arith) (omega arith)

  -- Every file can be written.
  abbrev pub CanWrite : World → Type 0
  CanWrite w = (path : String) → w.writable path ≡ true

  write_file-written :
      (w : World)
      → CanWrite w
      → (path : String) (buf : Bytes)
      → (w' : World) × (write_file w path buf ≡ some w') × CanWrite w'
  unfolding write_file
  write_file-written w can path buf = (renamed w path buf, rw (can (temporary path)), can)

  write_file-CanWrite :
      (w : World) (path : String) (buf : Bytes) {w' : World}
      → write_file w path buf ≡ some w'
      → CanWrite w
      → CanWrite w'
  write_file-CanWrite w path buf {w'} e can =
      let (w'', e', can') = write_file-written w can path buf in
      subst CanWrite (some_injective (sym e' ∙ e)) can'

  Step-CanWrite : {t u : Threads S E} → Step m opts t u → CanWrite t.world → CanWrite u.world
  Step-CanWrite (sends t c cs e room) can = can
  Step-CanWrite (receives t c cs e room) can = can
  Step-CanWrite (takes_turn t before behind i s d shared new w e now turn written) can =
      write_file-CanWrite t.world _ _ written can
  Step-CanWrite (writes t before behind others more i content w e written) can =
      write_file-CanWrite t.world _ _ written can
  Step-CanWrite (is_free t before behind e) can = can

  pub Reach-CanWrite : {t u : Threads S E} → Reach m opts t u → CanWrite t.world → CanWrite u.world
  Reach-CanWrite here can = can
  Reach-CanWrite (next r step) can = Step-CanWrite step (Reach-CanWrite r can)

  -- A turn does not panic.
  take_turn-ok :
      TracesOne m
      → (s : S) (d : Bool) (shared : Shared E)
      → (shared' : Shared E) × (new : List (Segment S E)) × (take_turn m s d shared
          ≡ ok (shared', new))
  unfolding take_turn
  take_turn-ok one s d shared =
      let (r, traced) = one s in
      elim (Result-cases (take_turn m s d shared)) [
        | inl (reason, e) ↦ cc (rw traced at e)
        | inr ((shared', new), e) ↦ (shared', new, e)
      ]

  abbrev pub Moves : Threads S E → Type 0
  Moves t = (u : Threads S E) × Step m opts t u

  -- One of the threads can go on.
  moves :
      TracesOne m
      → 0 < opts.checkpoints_channel_capacity
      → 0 < opts.trace_gen_workers
      → (t : Threads S E) (to_come : List (Checkpoint S))
        (channel at_work : List (ℕ × Checkpoint S)) (writing : List (List (ℕ × Bytes)))
      → t.to_come ≡ to_come
      → t.channel ≡ channel
      → t.at_work ≡ at_work
      → t.writing ≡ writing
      → IsRow t.turn (t.at_work ++ t.channel) t.index
      → CanWrite t.world
      → AreDone t ⊎ Moves t
  moves one room workers t to_come channel at_work ([] ∷ batches) e₁ e₂ e₃ e₄ row can =
      inr (_, is_free t [] batches e₄)
  moves one room workers t to_come channel at_work (((i, content) ∷ more) ∷ batches) e₁ e₂ e₃ e₄ row
        can =
      let (w, written, still) =
        write_file-written t.world can (segment_path opts.seg_path i) content in
      inr (_, writes t [] batches [] more i content w e₄ written)
  moves one room workers t to_come channel ((i, (s, d)) ∷ behind) [] e₁ e₂ e₃ e₄ row can =
      let (shared, new, turn) = take_turn-ok one s d t.shared in
      let (w, written, still) =
        write_file-written t.world can (count_path opts.seg_path)
          (codes (show shared.segment_index)) in
      let now = (subst (λ l. IsRow t.turn (l ++ t.channel) t.index) e₃ row).0 in
      inr (_, takes_turn t [] behind i s d shared new w e₃ now turn written)
  moves one room workers t to_come (c ∷ cs) [] [] e₁ e₂ e₃ e₄ row can =
      inr (_, receives t c cs e₂ (omega (arith, ap length e₃, ap length e₄)))
  moves one room workers t (c ∷ cs) [] [] [] e₁ e₂ e₃ e₄ row can =
      inr (_, sends t c cs e₁ (omega (arith, ap length e₂)))
  moves one room workers t [] [] [] [] e₁ e₂ e₃ e₄ row can =
      inl (record { all_sent = e₁; all_received = e₂; all_taken = e₃; all_written = e₄ })

-- From every state that a split can reach no run goes on for ever, and some thread can go on until
-- all have ended, if files can be written, the channel has room for one and there is a worker at
-- least. Each checkpoint is taken to be traced to one record.
pub Reach-Ends :
    {S E : Type 0} (m : Machine S E) (opts : Options) (reset : PublicValues) (w : World)
    (checkpoints : List (Checkpoint S))
    → TracesOne m
    → 0 < opts.checkpoints_channel_capacity
    → 0 < opts.trace_gen_workers
    → ((path : String) → w.writable path ≡ true)
    → {t : Threads S E} → Reach m opts (start m reset w checkpoints) t
    → Ends m opts t × (AreDone t ⊎ Moves m opts t)
unfolding start
Reach-Ends m opts reset w checkpoints one room workers can {t} r =
    let h =
      Reach-IsSplit m opts checkpoints (start m reset w checkpoints).shared w one r
        (start-IsSplit m opts reset w checkpoints) in
    (
      always-Ends m opts t,
      moves m opts one room workers t t.to_come t.channel t.at_work t.writing refl refl refl refl
          h.row (Reach-CanWrite m opts r can),
    )
