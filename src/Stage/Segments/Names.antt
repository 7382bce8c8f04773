-- ===== src/Stage/Segments/Names.antt =====
-- The names of the files of a split: segments, their count and the temporary files.
use Prim.Native.Char.{code}
use Prim.Native.String.{◌++◌ as ◌<>◌}
use text.Mathlib.TextLemmas.{nil-append, cons-append}
use mathlib.Core.List.{append_cancel_left, append_assoc}
use zkm_prover.Base.{
  ℕ, zero, suc, ◌+◌, ◌-◌, ◌*◌, ◌/◌, ◌%◌, ◌<◌, ◌≡◌, ◌≢◌, refl, sym, ap, ◌∙◌, String, true, false,
  List, [], ◌∷◌, ◌++◌, arith, all, all-append, all-cons, get_elem?, some_injective, ltb, Bool-cases,
  inl, inr,
}
use zkm_prover.Platform.{join}
use zkm_prover.Stage.Segments.{show, segment_path, codes, is_digit, digit, decimal}

pub codes-append : (a b : String) → codes (a <> b) ≡ codes a ++ codes b
codes-append String.[] b = ap codes (nil-append b)
codes-append (String.◌∷◌ c a) b =
    ap codes (cons-append c a b) ∙ ap (λ (cs : List ℕ). code c ∷ cs) (codes-append a b)

value_from : ℕ → List ℕ → ℕ
value_from acc [] = acc
value_from acc (c ∷ cs) = value_from (acc * 10 + (c - b'0')) cs

value_from-append :
    (acc : ℕ) (cs : List ℕ) (d : ℕ)
    → value_from acc (cs ++ d ∷ []) ≡ value_from acc cs * 10 + (d - b'0')
unfolding value_from
value_from-append acc [] d = refl
value_from-append acc (c ∷ cs) d = value_from-append (acc * 10 + (c - b'0')) cs d

codes-digit : (n : ℕ) → n < 10 → codes (digit n) ≡ (b'0' + n) ∷ []
codes-digit zero h = refl
codes-digit (suc zero) h = refl
codes-digit (suc (suc zero)) h = refl
codes-digit (suc (suc (suc zero))) h = refl
codes-digit (suc (suc (suc (suc zero)))) h = refl
codes-digit (suc (suc (suc (suc (suc zero))))) h = refl
codes-digit (suc (suc (suc (suc (suc (suc zero)))))) h = refl
codes-digit (suc (suc (suc (suc (suc (suc (suc zero))))))) h = refl
codes-digit (suc (suc (suc (suc (suc (suc (suc (suc zero)))))))) h = refl
codes-digit (suc (suc (suc (suc (suc (suc (suc (suc (suc zero))))))))) h = refl
codes-digit (suc (suc (suc (suc (suc (suc (suc (suc (suc (suc n)))))))))) h = absurd (omega arith)

-- The digits of a number: they are digits, and give it back.
abbrev IsDecimal : ℕ → List ℕ → Type 0
IsDecimal n cs = (value_from 0 cs ≡ n) × (all is_digit cs ≡ true)

one_digit : (n : ℕ) → n < 10 → IsDecimal n ((b'0' + n) ∷ [])
unfolding value_from
one_digit n h = (omega arith, ground arith)

more_digits :
    (n : ℕ) (cs : List ℕ) → IsDecimal (n / 10) cs → IsDecimal n (cs ++ (b'0' + n % 10) ∷ [])
more_digits n cs h = (
  omega (arith, value_from-append 0 cs (b'0' + n % 10), h.0),
  all-append is_digit cs ((b'0' + n % 10) ∷ []) h.1 (one_digit (n % 10) (omega arith)).1,
)

codes-decimal : (fuel n : ℕ) → n < fuel → IsDecimal n (codes (decimal fuel n))
unfolding decimal
codes-decimal zero n h = absurd (omega arith)
codes-decimal (suc fuel) n h = elim (Bool-cases (ltb n 10)) [
  | inl low ↦ rw (low, codes-digit n (ground arith)) (one_digit n (ground arith))
  | inr high ↦
      rw
        (
          high,
          codes-append (decimal fuel (n / 10)) (digit (n % 10)),
          codes-digit (n % 10) (omega arith),
        )
        (more_digits n (codes (decimal fuel (n / 10))) (codes-decimal fuel (n / 10) (ground arith)))
]

codes-show : (n : ℕ) → IsDecimal n (codes (show n))
unfolding show
codes-show n = codes-decimal (suc n) n (omega arith)

-- A path in a directory, as bytes.
codes-join : (dir a : String) → codes (join dir a) ≡ codes dir ++ (codes "/" ++ codes a)
codes-join dir a = codes-append dir ("/" <> a) ∙ ap (λ cs. codes dir ++ cs) (codes-append "/" a)

join_injective :
    (dir : String) {a b : List ℕ}
    → codes dir ++ (codes "/" ++ a) ≡ codes dir ++ (codes "/" ++ b)
    → a ≡ b
join_injective dir {a} {b} e =
    append_cancel_left (codes "/") a b (append_cancel_left (codes dir) (codes "/" ++ a) _ e)

-- Two segments with one path are one.
pub segment_path_injective :
    (dir : String) (i j : ℕ) → segment_path dir i ≡ segment_path dir j → i ≡ j
unfolding segment_path
segment_path_injective dir i j e =
    sym (codes-show i).0
    ∙ ap (value_from 0)
        (join_injective dir (sym (codes-join dir (show i)) ∙ ap codes e ∙ codes-join dir (show j)))
    ∙ (codes-show j).0

-- `segments.txt` in the directory of the segments.
abbrev pub count_path : String → String
count_path dir = join dir "segments.txt"

-- The path that `write_file` writes before it renames it.
abbrev pub temporary : String → String
temporary path = path <> ".tmp"

codes-temporary :
    (dir a : String)
    → codes (temporary (join dir a)) ≡ codes dir ++ (codes "/" ++ (codes a ++ codes ".tmp"))
codes-temporary dir a =
    codes-append (join dir a) ".tmp"
    ∙ ap (λ cs. cs ++ codes ".tmp") (codes-join dir a)
    ∙ append_assoc (codes dir) (codes "/" ++ codes a) (codes ".tmp")

segment_path-ne :
    (dir : String) (i : ℕ) {path : String} (cs : List ℕ)
    → codes path ≡ codes dir ++ (codes "/" ++ cs)
    → all is_digit cs ≡ false
    → segment_path dir i ≢ path
unfolding segment_path
segment_path-ne dir i cs named other e = cc (
  other,
  (codes-show i).1,
  ap (all is_digit) (join_injective dir (sym (codes-join dir (show i)) ∙ ap codes e ∙ named)),
)

pub segment_path-ne-count_path : (dir : String) (i : ℕ) → segment_path dir i ≢ count_path dir
segment_path-ne-count_path dir i =
    segment_path-ne dir i (codes "segments.txt") (codes-join dir "segments.txt") refl

not_digits : (cs : List ℕ) → all is_digit (cs ++ codes ".tmp") ≡ false
not_digits [] = refl
not_digits (c ∷ cs) = ground (arith, not_digits cs)

pub segment_path-ne-temporary :
    (dir a : String) (i : ℕ) → segment_path dir i ≢ temporary (join dir a)
segment_path-ne-temporary dir a i =
    segment_path-ne dir i _ (codes-temporary dir a) (not_digits (codes a))

no_segment : (cs : List ℕ) → all is_digit cs ≡ true → cs ++ codes ".tmp" ≢ codes "segments.txt"
no_segment [] h e = cc
no_segment (c ∷ cs) h e =
    let first : c ≡ b's' = some_injective (ap (λ (l : List ℕ). get_elem? l 0) e) in
    ground (arith, all-cons is_digit c cs h)

pub count_path-ne-temporary :
    (dir : String) (i : ℕ) → count_path dir ≢ temporary (segment_path dir i)
unfolding segment_path
count_path-ne-temporary dir i e = no_segment (codes (show i)) (codes-show i).1 (
    join_injective dir
      (sym (codes-temporary dir (show i)) ∙ sym (ap codes e) ∙ codes-join dir "segments.txt"))
