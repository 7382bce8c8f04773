-- ===== src/Prover/Executor/Order/Writes.antt =====
-- The writes of a split, turn by turn and file by file.
use mathlib.Core.List.{flatten}
use zkm_prover.Base.{
  ℕ, ◌+◌, ◌≡◌, ◌⊎◌, inl, inr, ap, sym, ◌∙◌, String, Bool, some, List, [], ◌∷◌, ◌++◌, append-nil,
  append_assoc, map-append, length, get_elem?, count_if, count_if-append, All, All-append,
  Bool-cases, ◌==◌, ==_iff, arith, if◌then◌else◌,
}
use zkm_prover.Platform.{Bytes, World}
use zkm_prover.Stage.Segments.{show, segment_path, codes}
use zkm_prover.Stage.Segments.Names.{
  count_path, segment_path_injective, segment_path-ne-count_path, segment_path-ne-temporary,
}
use zkm_prover.Prover.Machine.{Segment, Machine}
use zkm_prover.Prover.Executor.{Shared, write_file, numbered}
use zkm_prover.Prover.Executor.Run.{Threads, Options}
use zkm_prover.Prover.Executor.Files.{write_file-written, write_file-other}
use zkm_prover.Prover.Executor.Order.Numbers.{
  get_elem?-append_left, get_elem?-append_cases, flatten-append, is_for, IsOf, contents,
  numbered-IsOf, count_if-numbered, length-map,
}

-- A segment's file is there once nothing is to be written to it.
abbrev pub AreThere : String → List Bytes → List (ℕ × Bytes) → World → Type 0
AreThere dir contents to_write w =
    (j : ℕ) (content : Bytes)
    → get_elem? contents j ≡ some content
    → count_if (is_for j) to_write ≡ 0
    → w.files (segment_path dir j) ≡ some content

-- No segment's file holds anything but the segment, or what it held at the start.
abbrev pub IsClean : String → World → List Bytes → World → Type 0
IsClean dir w₀ contents w =
    (j : ℕ) (content : Bytes)
    → w.files (segment_path dir j) ≡ some content
    → (w₀.files (segment_path dir j) ≡ some content) ⊎ (get_elem? contents j ≡ some content)

IsOf-append :
    (xs ys : List Bytes) (writes : List (ℕ × Bytes))
    → All (IsOf xs) writes
    → All (IsOf (xs ++ ys)) writes
IsOf-append xs ys [] h = tt
IsOf-append xs ys ((j, content) ∷ more) h =
    (get_elem?-append_left xs ys j h.0, IsOf-append xs ys more h.1)

count_if-flatten :
    (p : ℕ × Bytes → Bool) (batches : List (List (ℕ × Bytes))) (batch : List (ℕ × Bytes))
    → count_if p (flatten (batches ++ batch ∷ [])) ≡ count_if p (flatten batches) + count_if p batch
unfolding flatten
count_if-flatten p batches batch =
    ap (count_if p) (flatten-append batches (batch ∷ []))
    ∙ count_if-append p (flatten batches) (batch ++ [])
    ∙ ap (λ l. count_if p (flatten batches) + count_if p l) (append-nil batch)

module _ {S E : Type 0} (m : Machine S E) (opts : Options) (t : Threads S E)
    (segments new : List (Segment S E)) (shared : Shared E) {w : World}
    (e : t.shared.segment_index ≡ length segments)
    (written : write_file t.world (count_path opts.seg_path) (codes (show shared.segment_index))
      ≡ some w) where
  pub turn-there :
      AreThere opts.seg_path (contents m segments) (flatten t.writing) t.world
      → AreThere opts.seg_path
          (contents m (segments ++ new))
          (flatten (t.writing ++ numbered m t.shared.segment_index new ∷ []))
          w
  turn-there h j content found none_left =
      let split = count_if-flatten (is_for j) t.writing (numbered m t.shared.segment_index new) in
      elim (get_elem?-append_cases (contents m segments) (contents m new) j
        (rw (map-append m.encode segments new) at found)) [
          | inl old ↦
              write_file-other t.world _ _ written (segment_path opts.seg_path j)
                (segment_path-ne-count_path opts.seg_path j)
                (segment_path-ne-temporary opts.seg_path "segments.txt" j)
              ∙ h j content old (omega (arith, split))
          | inr inside ↦ absurd (
              omega (
                arith,
                split,
                e,
                length-map m.encode segments,
                length-map m.encode new,
                count_if-numbered m t.shared.segment_index j new
                    (omega (arith, e, inside.0, length-map m.encode segments))
                    (omega
                      (arith, e, inside.1, length-map m.encode segments, length-map m.encode new)),
              ))
        ]

  pub turn-to_write :
      All (IsOf (contents m segments)) (flatten t.writing)
      → All
          (IsOf (contents m (segments ++ new)))
          (flatten (t.writing ++ numbered m t.shared.segment_index new ∷ []))
  unfolding flatten
  turn-to_write h = rw (flatten-append t.writing (numbered m t.shared.segment_index new ∷ [])) (
      All-append (IsOf (contents m (segments ++ new))) (flatten t.writing)
        (numbered m t.shared.segment_index new ++ [])
        (rw (map-append m.encode segments new)
          (IsOf-append (contents m segments) (contents m new) (flatten t.writing) h))
        (rw (append-nil (numbered m t.shared.segment_index new), e) (numbered-IsOf m segments new)))

pub turn-IsClean :
    {S E : Type 0} (m : Machine S E) (opts : Options) (w₀ : World) (t : Threads S E)
    (segments new : List (Segment S E)) (shared : Shared E) {w : World}
    → write_file t.world (count_path opts.seg_path) (codes (show shared.segment_index)) ≡ some w
    → IsClean opts.seg_path w₀ (contents m segments) t.world
    → IsClean opts.seg_path w₀ (contents m (segments ++ new)) w
turn-IsClean m opts w₀ t segments new shared written h j content found =
    let kept =
      write_file-other t.world _ _ written (segment_path opts.seg_path j)
        (segment_path-ne-count_path opts.seg_path j)
        (segment_path-ne-temporary opts.seg_path "segments.txt" j) in
    elim (h j content (sym kept ∙ found)) [
      | inl old ↦ inl old
      | inr there ↦ inr (
          rw (map-append m.encode segments new)
            (get_elem?-append_left (contents m segments) (contents m new) j there))
    ]

All-without :
    {A : Type 0} (P : A → Type 0) (xs : List A) (y : A) (ys : List A)
    → All P (xs ++ y ∷ ys)
    → P y × All P (xs ++ ys)
All-without P [] y ys h = h
All-without P (x ∷ xs) y ys h =
    let (there, others) = All-without P xs y ys h.1 in (there, (h.0, others))

pub is_free-flatten :
    {A : Type 0} (before behind : List (List A))
    → flatten (before ++ [] ∷ behind) ≡ flatten (before ++ behind)
unfolding flatten
is_free-flatten before behind =
    flatten-append before ([] ∷ behind) ∙ sym (flatten-append before behind)

-- A batch with a write in it, and without it.
flatten-batch :
    {A : Type 0} (before behind : List (List A)) (others more : List A)
    → flatten (before ++ (others ++ more) ∷ behind)
      ≡ (flatten before ++ others) ++ (more ++ flatten behind)
unfolding flatten
flatten-batch before behind others more =
    flatten-append before ((others ++ more) ∷ behind) ∙ simp append_assoc

module _ (dir : String) (w : World) (before behind : List (List (ℕ × Bytes)))
    (others more : List (ℕ × Bytes)) (file_no : ℕ) (content : Bytes) (contents : List Bytes) where
  pub write-to_write :
      All (IsOf contents) (flatten (before ++ (others ++ (file_no, content) ∷ more) ∷ behind))
      → (get_elem? contents file_no ≡ some content)
        × All (IsOf contents) (flatten (before ++ (others ++ more) ∷ behind))
  write-to_write h =
      let (there, left) =
        All-without (IsOf contents) (flatten before ++ others) (file_no, content)
          (more ++ flatten behind)
          (rw (flatten-batch before behind others ((file_no, content) ∷ more)) at h) in
      (there, rw (flatten-batch before behind others more) left)

  count_if-batch :
      (p : ℕ × Bytes → Bool)
      → count_if p (flatten (before ++ (others ++ (file_no, content) ∷ more) ∷ behind))
        ≡ (if p (file_no, content) then 1 else 0)
          + count_if p (flatten (before ++ (others ++ more) ∷ behind))
  count_if-batch p =
      let front = flatten before ++ others in
      let back = more ++ flatten behind in
      omega (
        arith,
        ap (count_if p) (flatten-batch before behind others ((file_no, content) ∷ more)),
        ap (count_if p) (flatten-batch before behind others more),
        count_if-append p front ((file_no, content) ∷ back),
        count_if-append p front back,
      )

  pub write-there :
      {w' : World}
      → write_file w (segment_path dir file_no) content ≡ some w'
      → All (IsOf contents) (flatten (before ++ (others ++ (file_no, content) ∷ more) ∷ behind))
      → AreThere dir contents (flatten (before ++ (others ++ (file_no, content) ∷ more) ∷ behind)) w
      → AreThere dir contents (flatten (before ++ (others ++ more) ∷ behind)) w'
  unfolding segment_path
  write-there {w'} written of_them h j other found none_left = elim (Bool-cases (j == file_no)) [
    | inl same ↦
        let its_number : j ≡ file_no = (==_iff j file_no).0 same in
        let its_content : some content ≡ some other =
          sym (write-to_write of_them).0 ∙ ap (get_elem? contents) (sym its_number) ∙ found in
        ap (λ n. w'.files (segment_path dir n)) its_number
        ∙ write_file-written w (segment_path dir file_no) content written
        ∙ its_content
    | inr different ↦
        write_file-other w (segment_path dir file_no) content written (segment_path dir j)
          (λ e. cc (different, (==_iff j file_no).1 (segment_path_injective dir j file_no e)))
          (segment_path-ne-temporary dir (show file_no) j)
        ∙ h j other found (
            omega (
              arith,
              none_left,
              count_if-batch (is_for j),
              ap {B = ℕ} (λ (b : Bool). if b then 1 else 0) different,
            ))
  ]

  pub write-IsClean :
      (w₀ : World) {w' : World}
      → write_file w (segment_path dir file_no) content ≡ some w'
      → All (IsOf contents) (flatten (before ++ (others ++ (file_no, content) ∷ more) ∷ behind))
      → IsClean dir w₀ contents w
      → IsClean dir w₀ contents w'
  unfolding segment_path
  write-IsClean w₀ {w'} written of_them h j other found = elim (Bool-cases (j == file_no)) [
    | inl same ↦
        let its_number : j ≡ file_no = (==_iff j file_no).0 same in
        let its_content : some content ≡ some other =
          sym (write_file-written w (segment_path dir file_no) content written)
          ∙ ap (λ n. w'.files (segment_path dir n)) (sym its_number)
          ∙ found in
        inr (ap (get_elem? contents) its_number ∙ (write-to_write of_them).0 ∙ its_content)
    | inr different ↦ h j other (
        sym (
          write_file-other w (segment_path dir file_no) content written (segment_path dir j)
            (λ e. cc (different, (==_iff j file_no).1 (segment_path_injective dir j file_no e)))
            (segment_path-ne-temporary dir (show file_no) j))
        ∙ found)
  ]
