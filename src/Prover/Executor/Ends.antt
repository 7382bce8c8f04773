-- ===== src/Prover/Executor/Ends.antt =====
-- What a split leaves when its threads have ended.
use mathlib.Core.List.{flatten}
use zkm_prover.Base.{
  ℕ, suc, ◌+◌, ◌≡◌, ◌<◌, refl, ap, ap₂, ◌∙◌, inl, Option, some, List, [], ◌∷◌, ◌++◌, append-nil,
  map, length, get_elem?, count_if, indices_from, arith,
}
use zkm_prover.Platform.{Bytes, ok, World}
use zkm_prover.Stage.Segments.{show, segment_path, codes}
use zkm_prover.Stage.Segments.Names.{count_path}
use zkm_prover.Prover.Machine.{PublicValues, Segment, Machine, TracesOne}
use zkm_prover.Prover.Executor.{Shared}
use zkm_prover.Prover.Executor.Run.{Checkpoint, Threads, Options, start, Reach}
use zkm_prover.Prover.Executor.Order.{run_all}
use zkm_prover.Prover.Executor.Order.Numbers.{is_for}
use zkm_prover.Prover.Executor.Refines.{checkpoint, IsSplit, Reach-IsSplit}

-- The thread that generates and all workers have nothing left to do.
pub record AreDone {S E : Type 0} (t : Threads S E) : Type 0 where
  pub all_sent : t.to_come ≡ []
  pub all_received : t.channel ≡ []
  pub all_taken : t.at_work ≡ []
  pub all_written : t.writing ≡ []

-- A function at the positions of a list, which are read from `base` on.
map-indices_from :
    {S : Type 0} (f : ℕ → Option Bytes) (g : S → Bytes) (base : ℕ) (xs : List S)
    → ((j : ℕ) (content : Bytes)
        → get_elem? (map g xs) j ≡ some content
        → f (base + j) ≡ some content)
    → map f (indices_from base xs) ≡ map (λ x. some (g x)) xs
map-indices_from f g base [] h = refl
map-indices_from f g base (x ∷ xs) h = ap₂ ◌∷◌ (ap f (omega arith) ∙ h 0 (g x) refl) (
    map-indices_from f g (suc base) xs
      (λ j content found. ap f (omega arith) ∙ h (suc j) content found))

pub IsSplit-done :
    {S E : Type 0} (m : Machine S E) (opts : Options) (checkpoints : List (Checkpoint S))
    (first : Shared E) (w₀ : World) (t : Threads S E) (h : IsSplit m opts checkpoints first w₀ t)
    → AreDone t
    → checkpoints ≡ h.done
IsSplit-done m opts checkpoints first w₀ t h d =
    h.order
    ∙ ap (λ l. h.done ++ (map checkpoint (l ++ t.channel) ++ t.to_come)) d.all_taken
    ∙ ap (λ l. h.done ++ (map checkpoint l ++ t.to_come)) d.all_received
    ∙ ap (λ l. h.done ++ l) d.all_sent
    ∙ append-nil h.done

module _ {S E : Type 0} (m : Machine S E) (opts : Options) (reset : PublicValues) (w : World)
    (checkpoints : List (Checkpoint S)) where
  pub start-IsSplit :
      IsSplit m opts checkpoints
        (start m reset w checkpoints).shared
        w
        (start m reset w checkpoints)
  unfolding start run_all flatten
  start-IsSplit = record {
    done = [];
    segments = [];
    order = refl;
    row = refl;
    ran = refl;
    count = refl;
    to_write = tt;
    there = λ j content found none_left. cc;
    clean = λ j content found. inl found;
    counted = λ none_done. absurd (omega arith);
  }

  -- When the threads of a split that has a checkpoint at least have ended, however they
  -- interleaved and in whatever order the files were written, the shared values and the segments
  -- are those of one thread that takes the checkpoints in order, file number k holds the segment
  -- number k, and segments.txt holds their number. Each checkpoint is taken to be traced to one
  -- record.
  pub Reach-run_all :
      TracesOne m
      → 0 < length checkpoints
      → {t : Threads S E} → Reach m opts (start m reset w checkpoints) t
      → AreDone t
      → (segments : List (Segment S E)) × (run_all m checkpoints
            (start m reset w checkpoints).shared
          ≡ ok (t.shared, segments))
        × (map
              (λ file_no. t.world.files (segment_path opts.seg_path file_no))
              (indices_from 0 segments)
            ≡ map (λ s. some (m.encode s)) segments)
        × (t.world.files (count_path opts.seg_path) ≡ some (codes (show (length segments))))
  unfolding flatten
  Reach-run_all one some_come {t} r d =
      let h =
        Reach-IsSplit m opts checkpoints (start m reset w checkpoints).shared w one r
          start-IsSplit in
      let all_done : checkpoints ≡ h.done = IsSplit-done m opts checkpoints _ w t h d in
      (
        h.segments,
        ap (λ l. run_all m l (start m reset w checkpoints).shared) all_done ∙ h.ran,
        map-indices_from (λ j. t.world.files (segment_path opts.seg_path j)) m.encode 0 h.segments
            (λ j content found.
              ap (λ n. t.world.files (segment_path opts.seg_path n)) (omega arith)
              ∙ h.there j content found (ap (λ l. count_if (is_for j) (flatten l)) d.all_written)),
        h.counted (omega (arith, ap length all_done)),
      )
