-- ===== src/Prover/Root/Reads.antt =====
-- A prover that reads the segments of a split while the split still writes them.
use mathlib.Core.List.{flatten}
use zkm_prover.Base.{
  ℕ, zero, suc, ◌+◌, ◌≡◌, ◌⊎◌, inl, inr, refl, ap, ap₂, sym, ◌∙◌, String, Option, none, some, List,
  [], ◌∷◌, ◌++◌, append_assoc, map, get_elem?, count_if, Option-cases, some_injective, arith,
}
use zkm_prover.Platform.{Bytes, ok, >>=-eq-ok, World}
use zkm_prover.Stage.Segments.{segment_path}
use zkm_prover.Prover.Machine.{PublicValues, Segment, Machine, TracesOne}
use zkm_prover.Prover.Executor.{Shared, take_turn}
use zkm_prover.Prover.Executor.Run.{Checkpoint, Threads, Options, start, Reach}
use zkm_prover.Prover.Executor.Order.{run_all, ok_pair}
use zkm_prover.Prover.Executor.Order.Numbers.{contents, is_for, get_elem?-append_left}
use zkm_prover.Prover.Executor.Refines.{checkpoint, IsSplit, Reach-IsSplit}
use zkm_prover.Prover.Executor.Ends.{AreDone, start-IsSplit, IsSplit-done}
use zkm_prover.Prover.Root.{max_retries, read_once, read_loop, read_segment}

get_elem?-map :
    {A B : Type 0} (f : A → B) (xs : List A) (j : ℕ) {b : B}
    → get_elem? (map f xs) j ≡ some b
    → (a : A) × (get_elem? xs j ≡ some a) × (f a ≡ b)
get_elem?-map f [] j h = cc
get_elem?-map f (x ∷ xs) zero h = (x, refl, some_injective h)
get_elem?-map f (x ∷ xs) (suc j) h = get_elem?-map f xs j h

get_elem?-map_of :
    {A B : Type 0} (f : A → B) (xs : List A) (j : ℕ) {a : A}
    → get_elem? xs j ≡ some a
    → get_elem? (map f xs) j ≡ some (f a)
get_elem?-map_of f [] j h = cc
get_elem?-map_of f (x ∷ xs) zero h = ap (λ a. some (f a)) (some_injective h)
get_elem?-map_of f (x ∷ xs) (suc j) h = get_elem?-map_of f xs j h

module _ {S E : Type 0} (m : Machine S E) where
  -- The segments of the first checkpoints come first.
  run_all-prefix :
      (cs more : List (Checkpoint S)) (s₀ s₁ last : Shared E) (segments all : List (Segment S E))
      → run_all m cs s₀ ≡ ok (s₁, segments)
      → run_all m (cs ++ more) s₀ ≡ ok (last, all)
      → (rest : List (Segment S E)) × (all ≡ segments ++ rest)
  unfolding run_all
  run_all-prefix [] more s₀ s₁ last segments all ran whole =
      (all, ap (λ l. l ++ all) (ok_pair ran).1)
  run_all-prefix ((s, d) ∷ cs) more s₀ s₁ last segments all ran whole =
      let ((s', new), turn, later) = >>=-eq-ok (take_turn m s d s₀) _ ran in
      let ((s'', old), ran', parts) = >>=-eq-ok (run_all m cs s') _ later in
      let ((z', new'), turn', later') = >>=-eq-ok (take_turn m s d s₀) _ whole in
      let same = ok_pair (sym turn ∙ turn') in
      let ((z'', more_of), ran'', parts') = >>=-eq-ok (run_all m (cs ++ more) z') _ later' in
      let (rest, e) =
        run_all-prefix cs more s' s'' z'' old more_of ran'
          (ap (λ u. run_all m (cs ++ more) u) same.0 ∙ ran'') in
      (
        rest,
        sym (ok_pair parts').1
            ∙ ap₂ (λ l k. l ++ k) (sym same.1) e
            ∙ sym (append_assoc new old rest)
            ∙ ap (λ l. l ++ rest) (ok_pair parts).1,
      )

  module _ (looks : ℕ → World) (path : String) (goal : Option (Segment S E))
      (seen : (attempt : ℕ)
        → (read_once m (looks attempt) path ≡ none)
          ⊎ (read_once m (looks attempt) path ≡ goal)) where
    read_loop-seen :
        (retries attempt : ℕ)
        → (read_loop m looks path retries attempt ≡ none)
          ⊎ (read_loop m looks path retries attempt ≡ goal)
    unfolding read_loop
    read_loop-seen zero attempt = seen attempt
    read_loop-seen (suc retries) attempt = elim (Option-cases (read_once m (looks attempt) path)) [
      | inl nothing ↦ rw (nothing, read_loop) (read_loop-seen retries (suc attempt))
      | inr (s, e) ↦
          rw (e, read_loop)
            (inr (elim (seen attempt) [ inl nothing ↦ cc | inr same ↦ sym e ∙ same ]))
    ]

    read_loop-last :
        (retries attempt : ℕ)
        → read_once m (looks (attempt + retries)) path ≡ goal
        → read_loop m looks path retries attempt ≡ goal
    unfolding read_loop
    read_loop-last zero attempt e = ap (λ n. read_once m (looks n) path) (omega arith) ∙ e
    read_loop-last (suc retries) attempt e =
        elim (Option-cases (read_once m (looks attempt) path)) [
          | inl nothing ↦
              rw (nothing, read_loop)
                (read_loop-last retries (suc attempt)
                  (ap (λ n. read_once m (looks n) path) (omega arith) ∙ e))
          | inr (s, found) ↦
              rw (found, read_loop)
                (elim (seen attempt) [ inl nothing ↦ cc | inr same ↦ sym found ∙ same ])
        ]

module _ {S E : Type 0} (m : Machine S E)
    (decodes : (s : Segment S E) → m.decode (m.encode s) ≡ some s) (opts : Options)
    (reset : PublicValues) (w : World)
    (empty : (j : ℕ) → w.files (segment_path opts.seg_path j) ≡ none)
    (checkpoints : List (Checkpoint S)) (one : TracesOne m) {last : Shared E}
    {all : List (Segment S E)}
    (whole : run_all m checkpoints (start m reset w checkpoints).shared ≡ ok (last, all)) where
  -- What a reachable state has written, among all segments.
  written_among :
      (t : Threads S E)
      → (h : IsSplit m opts checkpoints (start m reset w checkpoints).shared w t)
      → (rest : List (Segment S E)) × (all ≡ h.segments ++ rest)
  written_among t h =
      run_all-prefix m h.done (map checkpoint (t.at_work ++ t.channel) ++ t.to_come) _ t.shared last
        h.segments all h.ran
        (ap (λ l. run_all m l (start m reset w checkpoints).shared) (sym h.order) ∙ whole)

  read_once-found :
      (t : Threads S E)
      → (h : IsSplit m opts checkpoints (start m reset w checkpoints).shared w t)
      → (file_no : ℕ) (content : Bytes)
      → t.world.files (segment_path opts.seg_path file_no) ≡ some content
      → get_elem? (contents m h.segments) file_no ≡ some content
      → read_once m t.world (segment_path opts.seg_path file_no) ≡ get_elem? all file_no
  unfolding read_once
  read_once-found t h file_no content found its =
      let (s, there, e) = get_elem?-map m.encode h.segments file_no its in
      let (rest, more) = written_among t h in
      rw (found, read_once)
        (ap m.decode (sym e)
          ∙ decodes s
          ∙ sym (
              ap (λ l. get_elem? l file_no) more
              ∙ get_elem?-append_left h.segments rest file_no there))

  -- Nothing, or the segment.
  read_once-seen :
      (t : Threads S E)
      → IsSplit m opts checkpoints (start m reset w checkpoints).shared w t
      → (file_no : ℕ)
      → (read_once m t.world (segment_path opts.seg_path file_no) ≡ none)
        ⊎ (read_once m t.world (segment_path opts.seg_path file_no) ≡ get_elem? all file_no)
  unfolding read_once
  read_once-seen t h file_no =
      elim (Option-cases (t.world.files (segment_path opts.seg_path file_no))) [
        | inl nothing ↦ inl (rw (nothing, read_once))
        | inr (content, found) ↦ elim (h.clean file_no content found) [
          | inl old ↦ cc (old, empty file_no)
          | inr its ↦ inr (read_once-found t h file_no content found its)
        ]
      ]

  read_once-done :
      (t : Threads S E)
      → IsSplit m opts checkpoints (start m reset w checkpoints).shared w t
      → AreDone t
      → (file_no : ℕ) (s : Segment S E) → get_elem? all file_no ≡ some s
      → read_once m t.world (segment_path opts.seg_path file_no) ≡ get_elem? all file_no
  unfolding flatten
  read_once-done t h d file_no s e =
      let all_done = IsSplit-done m opts checkpoints _ w t h d in
      let same : all ≡ h.segments =
        (ok_pair (
          sym whole
          ∙ ap (λ l. run_all m l (start m reset w checkpoints).shared) all_done
          ∙ h.ran)).1 in
      let its : get_elem? (contents m h.segments) file_no ≡ some (m.encode s) =
        ap (λ l. get_elem? (contents m l) file_no) (sym same)
        ∙ get_elem?-map_of m.encode all file_no e in
      read_once-found t h file_no (m.encode s)
        (h.there file_no (m.encode s) its
          (ap (λ l. count_if (is_for file_no) (flatten l)) d.all_written))
        its

  -- A prover that reads a segment while a split into an empty directory goes on gets the segment
  -- of that number, or nothing, and nothing only if the split is not over at the last attempt. It
  -- never gets another one. Each checkpoint is taken to be traced to one record, and a decoding to
  -- give back what was encoded.
  pub read_segment-run :
      (looks : ℕ → Threads S E) (file_no : ℕ)
      → ((attempt : ℕ) → Reach m opts (start m reset w checkpoints) (looks attempt))
      → let read = read_segment m (λ n. (looks n).world) (segment_path opts.seg_path file_no) in
        (read ≡ get_elem? all file_no) ⊎ ((read ≡ none) × (¬ AreDone (looks max_retries)))
  unfolding read_segment
  read_segment-run looks file_no reached =
      let split = λ (n : ℕ).
        Reach-IsSplit m opts checkpoints (start m reset w checkpoints).shared w one (reached n)
          (start-IsSplit m opts reset w checkpoints) in
      let seen = λ (n : ℕ). read_once-seen (looks n) (split n) file_no in
      let path = segment_path opts.seg_path file_no in
      let loop =
        read_loop-seen m (λ n. (looks n).world) path (get_elem? all file_no) seen max_retries 0 in
      elim loop [
        | inr found ↦ inl found
        | inl nothing ↦ elim (Option-cases (get_elem? all file_no)) [
          | inl no_segment ↦ inl (nothing ∙ sym no_segment)
          | inr (s, e) ↦ inr (
            nothing,
            λ d. cc (
              nothing,
              e,
              read_loop-last m (λ n. (looks n).world) path (get_elem? all file_no) seen max_retries
                  0 (read_once-done (looks max_retries) (split max_retries) d file_no s e),
            ),
          )
        ]
      ]
