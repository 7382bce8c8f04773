-- ===== src/Prover/Executor/Refines.antt =====
-- The threads of a split against one thread that takes every turn.
use mathlib.Core.List.{flatten}
use zkm_prover.Base.{
  ℕ, suc, ◌≡◌, ◌<◌, ap, sym, ◌∙◌, subst, Bool, some, List, [], ◌∷◌, ◌++◌, append_assoc, map,
  map-append, length, length-append, All, arith,
}
use zkm_prover.Platform.{Bytes, ok, World}
use zkm_prover.Stage.Segments.{show, segment_path, codes}
use zkm_prover.Stage.Segments.Names.{
  count_path, segment_path-ne-count_path, count_path-ne-temporary,
}
use zkm_prover.Prover.Machine.{Segment, Machine, TracesOne}
use zkm_prover.Prover.Executor.{Shared, take_turn, write_file, numbered}
use zkm_prover.Prover.Executor.Run.{
  Checkpoint, Threads, Options, Step, sends, receives, takes_turn, writes, is_free, Reach, here,
  next,
}
use zkm_prover.Prover.Executor.Files.{write_file-written, write_file-other}
use zkm_prover.Prover.Executor.Order.{run_all, run_all-append, take_turn-length}
use zkm_prover.Prover.Executor.Order.Writes.{
  AreThere, IsClean, turn-there, turn-to_write, turn-IsClean, write-IsClean, write-there,
  write-to_write, is_free-flatten,
}
use zkm_prover.Prover.Executor.Order.Row.{IsRow, IsRow-append, IsRow-first}
use zkm_prover.Prover.Executor.Order.Numbers.{IsOf, contents}

abbrev pub checkpoint : {S : Type 0} → ℕ × Checkpoint S → Checkpoint S
checkpoint numbered_one = numbered_one.1

module _ {S E : Type 0} (m : Machine S E) (opts : Options) (checkpoints : List (Checkpoint S))
    (first : Shared E) (w₀ : World) where
  -- The turns taken so far, with their segments, are those of one thread; what is not written yet is
  -- to be written, and all else is there.
  pub record IsSplit (t : Threads S E) : Type 0 where
    pub done : List (Checkpoint S)
    pub segments : List (Segment S E)
    pub order : checkpoints ≡ done ++ (map checkpoint (t.at_work ++ t.channel) ++ t.to_come)
    pub row : IsRow t.turn (t.at_work ++ t.channel) t.index
    pub ran : run_all m done first ≡ ok (t.shared, segments)
    pub count : t.shared.segment_index ≡ length segments
    pub to_write : All (IsOf (contents m segments)) (flatten t.writing)
    pub there : AreThere opts.seg_path (contents m segments) (flatten t.writing) t.world
    pub clean : IsClean opts.seg_path w₀ (contents m segments) t.world
    pub counted :
        0 < length done
        → t.world.files (count_path opts.seg_path) ≡ some (codes (show (length segments)))

  sends-IsSplit :
      (t : Threads S E) (c : Checkpoint S) (cs : List (Checkpoint S))
      → t.to_come ≡ c ∷ cs
      → IsSplit t
      → IsSplit
          (record t { to_come = cs; index = suc t.index; channel = t.channel ++ (t.index, c) ∷ [] })
  sends-IsSplit t c cs e h = record {
    done = h.done;
    segments = h.segments;
    order =
        h.order
        ∙ ap (λ l. h.done ++ l)
            (ap (λ l. map checkpoint (t.at_work ++ t.channel) ++ l) e
              ∙ simp (append_assoc, map-append, checkpoint));
    row =
        subst (λ l. IsRow t.turn l (suc t.index))
          (append_assoc t.at_work t.channel ((t.index, c) ∷ []))
          (IsRow-append t.turn t.index (t.at_work ++ t.channel) c h.row);
    ran = h.ran;
    count = h.count;
    to_write = h.to_write;
    there = h.there;
    clean = h.clean;
    counted = h.counted;
  }

  receives-IsSplit :
      (t : Threads S E) (c : ℕ × Checkpoint S) (cs : List (ℕ × Checkpoint S))
      → t.channel ≡ c ∷ cs
      → IsSplit t
      → IsSplit (record t { channel = cs; at_work = t.at_work ++ c ∷ [] })
  receives-IsSplit t c cs e h =
      let moved : t.at_work ++ t.channel ≡ (t.at_work ++ c ∷ []) ++ cs =
        ap (λ l. t.at_work ++ l) e ∙ sym (append_assoc t.at_work (c ∷ []) cs) in
      record {
        done = h.done;
        segments = h.segments;
        order = h.order ∙ ap (λ l. h.done ++ (map checkpoint l ++ t.to_come)) moved;
        row = subst (λ l. IsRow t.turn l t.index) moved h.row;
        ran = h.ran;
        count = h.count;
        to_write = h.to_write;
        there = h.there;
        clean = h.clean;
        counted = h.counted;
      }

  -- A worker's turn, where it is the first of those at work.
  first_turn-IsSplit :
      TracesOne m
      → (t : Threads S E) (behind : List (ℕ × Checkpoint S)) (index : ℕ) (exe_state : S)
        (done : Bool) (shared : Shared E) (new : List (Segment S E)) (w : World)
      → t.at_work ≡ (index, (exe_state, done)) ∷ behind
      → take_turn m exe_state done t.shared ≡ ok (shared, new)
      → write_file t.world (count_path opts.seg_path) (codes (show shared.segment_index)) ≡ some w
      → IsSplit t
      → IsSplit (record t {
        at_work = behind;
        turn = suc t.turn;
        shared = shared;
        writing = t.writing ++ numbered m t.shared.segment_index new ∷ [];
        world = w;
      })
  first_turn-IsSplit one t behind index exe_state done shared new w e turn written h =
      let longer : shared.segment_index ≡ length (h.segments ++ new) = omega (
        arith,
        take_turn-length m one exe_state done t.shared shared new turn,
        h.count,
        length-append h.segments new,
      ) in
      record {
        done = h.done ++ (exe_state, done) ∷ [];
        segments = h.segments ++ new;
        order =
            h.order
            ∙ ap
                (λ (l : List (ℕ × Checkpoint S)).
                  h.done ++ (map checkpoint (l ++ t.channel) ++ t.to_come))
                e
            ∙ sym (append_assoc h.done ((exe_state, done) ∷ []) _);
        row = (subst (λ l. IsRow t.turn (l ++ t.channel) t.index) e h.row).1;
        ran =
            run_all-append m h.done exe_state done first t.shared shared h.segments new h.ran turn;
        count = longer;
        to_write = turn-to_write m opts t h.segments new shared h.count written h.to_write;
        there = turn-there m opts t h.segments new shared h.count written h.there;
        clean = turn-IsClean m opts w₀ t h.segments new shared written h.clean;
        counted = λ some_done.
            write_file-written t.world (count_path opts.seg_path) _ written
            ∙ ap (λ n. some (codes (show n))) longer;
      }

  takes_turn-IsSplit :
      TracesOne m
      → (t : Threads S E) (before behind : List (ℕ × Checkpoint S)) (index : ℕ) (exe_state : S)
        (done : Bool) (shared : Shared E) (new : List (Segment S E)) (w : World)
      → t.at_work ≡ before ++ (index, (exe_state, done)) ∷ behind
      → index ≡ t.turn
      → take_turn m exe_state done t.shared ≡ ok (shared, new)
      → write_file t.world (count_path opts.seg_path) (codes (show shared.segment_index)) ≡ some w
      → IsSplit t
      → IsSplit (record t {
        at_work = before ++ behind;
        turn = suc t.turn;
        shared = shared;
        writing = t.writing ++ numbered m t.shared.segment_index new ∷ [];
        world = w;
      })
  takes_turn-IsSplit one t before behind index exe_state done shared new w e now turn written h =
      let alone : before ≡ [] =
        IsRow-first t.turn t.index index before (exe_state, done) (behind ++ t.channel)
          (subst (λ l. IsRow t.turn l t.index)
            (ap (λ l. l ++ t.channel) e
              ∙ append_assoc before ((index, (exe_state, done)) ∷ behind) t.channel)
            h.row)
          now in
      rw alone (
        first_turn-IsSplit one t behind index exe_state done shared new w (rw alone at e) turn
          written h)

  writes-IsSplit :
      (t : Threads S E) (before behind : List (List (ℕ × Bytes))) (others more : List (ℕ × Bytes))
      (file_no : ℕ) (content : Bytes) (w : World)
      → t.writing ≡ before ++ (others ++ (file_no, content) ∷ more) ∷ behind
      → write_file t.world (segment_path opts.seg_path file_no) content ≡ some w
      → IsSplit t
      → IsSplit (record t { writing = before ++ (others ++ more) ∷ behind; world = w })
  unfolding segment_path
  writes-IsSplit t before behind others more file_no content w e written h = record {
    done = h.done;
    segments = h.segments;
    order = h.order;
    row = h.row;
    ran = h.ran;
    count = h.count;
    to_write =
        (write-to_write opts.seg_path t.world before behind others more file_no content
          (contents m h.segments)
          (subst (λ l. All (IsOf (contents m h.segments)) (flatten l)) e h.to_write)).1;
    there =
        write-there opts.seg_path t.world before behind others more file_no content
          (contents m h.segments) written
          (subst (λ l. All (IsOf (contents m h.segments)) (flatten l)) e h.to_write)
          (subst (λ l. AreThere opts.seg_path (contents m h.segments) (flatten l) t.world) e
            h.there);
    clean =
        write-IsClean opts.seg_path t.world before behind others more file_no content
          (contents m h.segments) w₀ written
          (subst (λ l. All (IsOf (contents m h.segments)) (flatten l)) e h.to_write) h.clean;
    counted = λ some_done.
        write_file-other t.world _ content written (count_path opts.seg_path)
          (λ same. segment_path-ne-count_path opts.seg_path file_no (sym same))
          (count_path-ne-temporary opts.seg_path file_no)
        ∙ h.counted some_done;
  }

  is_free-IsSplit :
      (t : Threads S E) (before behind : List (List (ℕ × Bytes)))
      → t.writing ≡ before ++ [] ∷ behind
      → IsSplit t
      → IsSplit (record t { writing = before ++ behind })
  is_free-IsSplit t before behind e h =
      let same = ap flatten e ∙ is_free-flatten before behind in
      record {
        done = h.done;
        segments = h.segments;
        order = h.order;
        row = h.row;
        ran = h.ran;
        count = h.count;
        to_write = subst (All (IsOf (contents m h.segments))) same h.to_write;
        there = subst (λ l. AreThere opts.seg_path (contents m h.segments) l t.world) same h.there;
        clean = h.clean;
        counted = h.counted;
      }

  Step-IsSplit : TracesOne m → {t u : Threads S E} → Step m opts t u → IsSplit t → IsSplit u
  Step-IsSplit one (sends t c cs e room) h = sends-IsSplit t c cs e h
  Step-IsSplit one (receives t c cs e room) h = receives-IsSplit t c cs e h
  Step-IsSplit one (takes_turn t before behind i s d shared new w e now turn written) h =
      takes_turn-IsSplit one t before behind i s d shared new w e now turn written h
  Step-IsSplit one (writes t before behind others more i content w e written) h =
      writes-IsSplit t before behind others more i content w e written h
  Step-IsSplit one (is_free t before behind e) h = is_free-IsSplit t before behind e h

  pub Reach-IsSplit : TracesOne m → {t u : Threads S E} → Reach m opts t u → IsSplit t → IsSplit u
  Reach-IsSplit one here h = h
  Reach-IsSplit one (next r step) h = Step-IsSplit one step (Reach-IsSplit one r h)
