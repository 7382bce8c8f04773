-- ===== src/Files/Total.antt =====
-- The paths that `s3_create_dir_all` builds, and whether it returns.
use Prim.Native.String.{String, ◌++◌ as ◌<>◌}
use text.Mathlib.TextLemmas.{append_assoc as text_assoc}
use zkm_prover.Base.{
  ◌≡◌, refl, ap, ◌∙◌, Bool, true, false, List, [], ◌∷◌, str_eq, if◌then◌else◌, Bool-cases, inl, inr,
}
use zkm_prover.Platform.{Result, ok, ◌>>=◌, World, join, Ensures-ok}
use zkm_prover.Files.{
  parse_s3_path, object_path, head_object, s3_exist, s3_write_file, stored, split_slash, make_dirs,
  s3_create_dir_all,
}
use zkm_prover.Files.Paths.{parse_s3_path_iff, has_no_slash}
use zkm_prover.Files.Dirs.{AllMade, dir_paths, s3_create_dir_all-AllMade}

-- The call returns.
abbrev Returns : Result (World × Bool) → Type 0
Returns m = (r : World × Bool) × (m ≡ ok r)

bind_Returns :
    (m : Result (World × Bool)) (next : World × Bool → Result (World × Bool))
    → Returns m
    → ((r : World × Bool) → Returns (next r))
    → Returns (m >>= next)
bind_Returns m next (r, e) k = rw e (k r)

chosen :
    (b : Bool) (m : Result (World × Bool)) (w : World)
    → Returns m
    → Returns (if b then m else ok (w, false))
chosen true m w h = h
chosen false m w h = ((w, false), refl)

module _ (bucket : String) (clear : has_no_slash bucket ≡ true) where
  parsed : (key : String) → parse_s3_path (object_path bucket key) ≡ ok (bucket, key)
  parsed key = (parse_s3_path_iff (object_path bucket key) bucket key).1 (refl, clear)

  -- What is joined to the path is an object's path.
  abbrev IsBase : String → Type 0
  IsBase path = (part : String) → (key : String) × (join path part ≡ object_path bucket key)

  join-IsBase : (path part : String) → IsBase path → IsBase (join path part)
  join-IsBase path part base next =
      let (key, e) = base part in
      (
        key <> ("/" <> next),
        ap (λ p. join p next) e
            ∙ text_assoc "s3://" (bucket <> ("/" <> key)) ("/" <> next)
            ∙ ap (λ t. "s3://" <> t)
                (text_assoc bucket ("/" <> key) ("/" <> next)
                  ∙ ap (λ t. bucket <> t) (text_assoc "/" key ("/" <> next))),
      )

  bucket-IsBase : IsBase ("s3://" <> bucket)
  bucket-IsBase part = (part, text_assoc "s3://" bucket ("/" <> part))

  s3_exist-Returns :
      (w : World) (path key : String)
      → path ≡ object_path bucket key
      → s3_exist w path ≡ ok (head_object w (object_path bucket key))
  unfolding s3_exist
  s3_exist-Returns w path key e = rw (e, parsed key)

  ensure_dir-Returns :
      (w : World) (path key : String) (exist : Bool)
      → path ≡ object_path bucket key
      → Returns (if exist then ok (w, true) else s3_write_file w path [])
  unfolding s3_write_file
  ensure_dir-Returns w path key true e = ((w, true), refl)
  ensure_dir-Returns w path key false e = (
    if w.writable (object_path bucket key)
        then (stored w (object_path bucket key) [], true)
        else (w, false),
    rw (e, parsed key),
  )

  make_dirs-Returns :
      (w : World) (path : String) (parts : List String)
      → IsBase path
      → Returns (make_dirs w path parts)
  unfolding make_dirs
  make_dirs-Returns w path [] base = ((w, true), refl)
  make_dirs-Returns w path (part ∷ parts) base = elim (Bool-cases (str_eq part "")) [
    | inl skipped ↦ rw skipped (make_dirs-Returns w path parts base)
    | inr named ↦
        let (key, e) = base part in
        let exist = head_object w (object_path bucket key) in
        rw (named, s3_exist-Returns w (join path part) key e)
          (bind_Returns (if exist then ok (w, true) else s3_write_file w (join path part) []) _
            (ensure_dir-Returns w (join path part) key exist e)
            (λ r.
              chosen r.1 (make_dirs r.0 (join path part) parts) r.0
                (make_dirs-Returns r.0 (join path part) parts (join-IsBase path part base))))
  ]

-- s3_create_dir_all returns for every bucket and key. It ends well, and each directory that the
-- key names has an object, or it ends with an error, and one of these directories cannot be
-- written. Every object of before is there as it was, but for those that are such a directory and
-- about which the store did not answer: one of these is as it was or empty.
pub s3_create_dir_all-makes :
    (w : World) (bucket key : String)
    → has_no_slash bucket ≡ true
    → (r : World × Bool) × (s3_create_dir_all w (object_path bucket key) ≡ ok r)
      × AllMade w (dir_paths ("s3://" <> bucket) (split_slash key)) r
unfolding s3_create_dir_all
s3_create_dir_all-makes w bucket key clear =
    let (r, e) =
      make_dirs-Returns bucket clear w ("s3://" <> bucket) (split_slash key)
        (bucket-IsBase bucket clear) in
    let ran : s3_create_dir_all w (object_path bucket key) ≡ ok r =
      rw (parsed bucket clear key) e in
    (r, ran, Ensures-ok _ _ r (s3_create_dir_all-AllMade w bucket key clear) ran)
