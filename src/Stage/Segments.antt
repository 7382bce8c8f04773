-- ===== src/Stage/Segments.antt =====
-- Text that the stage reads and makes: `segments.txt`, the names of deferred proofs, segment paths.
pub mod Names
use Prim.Native.Char.{code}
use Prim.Native.String
use zkm_prover.Base.{
  ℕ, zero, suc, ◌+◌, ◌-◌, ◌*◌, ◌/◌, ◌%◌, ◌^◌, String, Bool, ◌&&◌, ◌||◌, Option, none, some, List,
  [], ◌∷◌, ltb, leb, ◌==◌, if◌then◌else◌,
}
use zkm_prover.Platform.{World, join}

abbrev pub codes : String → List ℕ
codes String.[] = []
codes (String.◌∷◌ c s) = code c ∷ codes s

abbrev is_space : ℕ → Bool
is_space c = c == 32 || (leb 9 c && leb c 13)

abbrev pub is_digit : ℕ → Bool
is_digit c = leb b'0' c && leb c b'9'

trim_start : List ℕ → List ℕ
trim_start [] = []
trim_start (c ∷ cs) = let rest = trim_start cs in if is_space c then rest else c ∷ cs

-- Drops the spaces behind the last other byte.
trim_end : List ℕ → List ℕ
trim_end [] = []
trim_end (c ∷ cs) = keep c (trim_end cs)
  where
    keep : ℕ → List ℕ → List ℕ
    keep c [] = if is_space c then [] else c ∷ []
    keep c (d ∷ ds) = c ∷ d ∷ ds

-- The digits of a `usize`; a number that does not fit is an error.
parse_digits : ℕ → List ℕ → Option ℕ
parse_digits acc [] = some acc
parse_digits acc (c ∷ cs) =
    let n = acc * 10 + (c - b'0') in
    let rest = parse_digits n cs in if is_digit c && ltb n (2 ^ 64) then rest else none

-- `str::parse::<usize>`, which takes one plus sign.
unfoldable pub parse_usize : List ℕ → Option ℕ
unfolding parse_digits
parse_usize [] = none
parse_usize (c ∷ []) = if c == b'+' then none else parse_digits 0 (c ∷ [])
parse_usize (c ∷ d ∷ cs) =
    if c == b'+' then parse_digits 0 (d ∷ cs) else parse_digits 0 (c ∷ d ∷ cs)

-- The number in `segments.txt`, once it is there and readable. White space is ASCII's.
unfoldable pub read_segment_count : World → String → Option ℕ
unfolding parse_usize trim_start trim_end
read_segment_count w seg_path = elim (w.files (join seg_path "segments.txt")) [
  | some content ↦ parse_usize (trim_end (trim_start content))
  | none ↦ none
]

strip_codes : List ℕ → List ℕ → Option (List ℕ)
strip_codes [] cs = some cs
strip_codes (p ∷ ps) [] = none
strip_codes (p ∷ ps) (c ∷ cs) = if p == c then strip_codes ps cs else none

-- The number of a file named `deferred_proof_<number>`.
unfoldable pub deferred_number : String → Option ℕ
unfolding strip_codes parse_usize
deferred_number name = elim (strip_codes (codes "deferred_proof_") (codes name)) [
  | some rest ↦ parse_usize rest
  | none ↦ none
]

abbrev digit : ℕ → String
digit zero = "0"
digit (suc zero) = "1"
digit (suc (suc zero)) = "2"
digit (suc (suc (suc zero))) = "3"
digit (suc (suc (suc (suc zero)))) = "4"
digit (suc (suc (suc (suc (suc zero))))) = "5"
digit (suc (suc (suc (suc (suc (suc zero)))))) = "6"
digit (suc (suc (suc (suc (suc (suc (suc zero))))))) = "7"
digit (suc (suc (suc (suc (suc (suc (suc (suc zero)))))))) = "8"
digit n = "9"

-- Decimal, on fuel: a number has at most `n + 1` digits.
decimal : ℕ → ℕ → String
decimal zero n = ""
decimal (suc fuel) n =
    let front = decimal fuel (n / 10) in
    if ltb n 10 then digit n else String.◌++◌ front (digit (n % 10))

unfoldable pub show : ℕ → String
unfolding decimal
show n = decimal (suc n) n

-- `format!("{}/{file_no}", seg_path)`
unfoldable pub segment_path : String → ℕ → String
unfolding show
segment_path seg_path file_no = join seg_path (show file_no)
