-- ===== src/Files/Paths.antt =====
-- The path of an S3 object taken apart: `parse_s3_path`.
use Prim.Native.Char.{code}
use Prim.Native.String.{String, ◌++◌ as ◌<>◌}
use text.Mathlib.TextEquality.{Char-path}
use text.Mathlib.TextLemmas.{nil-append, cons-append}
use zkm_prover.Base.{
  ◌≡◌, refl, ap, ap₂, ◌∙◌, some_injective, ◌==◌, Option-cases, sym, ◌↔◌, Bool, true, ◌&&◌, not,
  Option, some, arith, ==_iff, Bool-cases, inl, inr,
}
use zkm_prover.Platform.{ok, unwrap, >>=-eq-ok, unwrap-eq-ok, unwrap_none}
use zkm_prover.Files.{strip_prefix, split_once, is_slash, parse_s3_path, object_path}

-- No character is a slash.
unfoldable pub has_no_slash : String → Bool
has_no_slash String.[] = true
has_no_slash (String.◌∷◌ c s) = not (is_slash (code c)) && has_no_slash s

strip_prefix-append : (p s : String) → strip_prefix p (p <> s) ≡ some s
unfolding strip_prefix
strip_prefix-append String.[] s = rw (nil-append s)
strip_prefix-append (String.◌∷◌ c p) s =
    rw (cons-append c p s) (ground (arith, strip_prefix-append p s))

strip_prefix_sound : (p t : String) {s : String} → strip_prefix p t ≡ some s → t ≡ p <> s
unfolding strip_prefix
strip_prefix_sound String.[] t {s} h = some_injective h ∙ sym (nil-append s)
strip_prefix_sound (String.◌∷◌ c p) String.[] h = cc
strip_prefix_sound (String.◌∷◌ c p) (String.◌∷◌ d t) {s} h = elim (Bool-cases (code c == code d)) [
  | inl same ↦ rw (cons-append c p s) (
      ap₂ String.◌∷◌ (sym (Char-path c d ((==_iff _ _).0 same)))
        (strip_prefix_sound p t (rw same at h)))
  | inr other ↦ cc (rw other at h)
]

split_once-slash : (b : String) → split_once ("/" <> b) ≡ some ("", b)
unfolding split_once
split_once-slash b = rw (cons-append "/" "" b, nil-append b)

split_once-append :
    (a b : String) → has_no_slash a ≡ true → split_once (a <> ("/" <> b)) ≡ some (a, b)
unfolding split_once has_no_slash
split_once-append String.[] b h = rw (nil-append ("/" <> b)) (split_once-slash b)
split_once-append (String.◌∷◌ c a) b h =
    rw (cons-append c a ("/" <> b)) (ground (arith, split_once-append a b))

both_halves :
    {a b x y : String}
    → ◌≡◌ {A = Option (String × String)} (some (x, y)) (some (a, b))
    → (x ≡ a) × (y ≡ b)
both_halves h = (cc, cc)

split_once_sound :
    (t : String) {a b : String}
    → split_once t ≡ some (a, b)
    → (t ≡ a <> ("/" <> b)) × (has_no_slash a ≡ true)
unfolding split_once has_no_slash
split_once_sound String.[] h = cc
split_once_sound (String.◌∷◌ c t) {a} {b} h = elim (Bool-cases (is_slash (code c))) [
  | inl slash ↦
      let (front, back) = both_halves (rw slash at h) in
      rw (← front, ← back, nil-append, cons-append "/" "" t, nil-append)
        (ap (λ d. String.◌∷◌ d t) (Char-path c "/" ((==_iff _ _).0 slash)), refl)
  | inr other ↦ elim (Option-cases (split_once t)) [
    | inl missing ↦ cc (rw (other, missing) at h)
    | inr ((x, y), found) ↦
        let (front, back) = both_halves (rw (other, found) at h) in
        let (whole, clear) = split_once_sound t found in
        rw (← front, ← back, other, cons-append c x ("/" <> y)) (ap (String.◌∷◌ c) whole, clear)
  ]
]

-- parse_s3_path gives a bucket and a key exactly where the path is the one that they make and the
-- bucket has no slash.
pub parse_s3_path_iff :
    (path bucket key : String)
    → (parse_s3_path path ≡ ok (bucket, key))
      ↔ ((path ≡ object_path bucket key) × (has_no_slash bucket ≡ true))
unfolding parse_s3_path
parse_s3_path_iff path bucket key = (
  λ h.
      let (rest, stripped, halves) =
        >>=-eq-ok (unwrap (strip_prefix "s3://" path) unwrap_none) _ h in
      let (whole, clear) = split_once_sound rest (unwrap-eq-ok (split_once rest) _ halves) in
      (
        strip_prefix_sound "s3://" path (unwrap-eq-ok (strip_prefix "s3://" path) _ stripped)
            ∙ ap (λ r. "s3://" <> r) whole,
        clear,
      ),
  λ h.
      rw (
        h.0,
        strip_prefix-append "s3://" (bucket <> ("/" <> key)),
        split_once-append bucket key h.1,
      ),
)
