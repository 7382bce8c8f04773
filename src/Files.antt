-- ===== src/Files.antt =====
-- common/src/file.rs: files by path, local ones and S3 objects alike. The S3 client is a store of
-- the world, `objects`, whose keys are whole paths; what S3 lists under a prefix is a parameter.
-- A panic is one of the code's own `unwrap`s; an `Err` is `none`, or `false` beside the world.
pub mod Paths
pub mod Dirs
pub mod Total
use Prim.Native.Char.{Char, code}
use Prim.Native.String.{String, ◌++◌ as ◌<>◌}
use zkm_prover.Base.{
  ℕ, Bool, true, false, Option, none, some, List, [], ◌∷◌, str_eq, ◌==◌, ◌&&◌, if◌then◌else◌,
}
use zkm_prover.Platform.{
  Bytes, Result, ok, unwrap, ◌>>=◌, World, is_s3_path, written, join, unwrap_none,
}

-- `str::strip_prefix`
unfoldable pub strip_prefix : String → String → Option String
strip_prefix String.[] s = some s
strip_prefix (String.◌∷◌ c p) String.[] = none
strip_prefix (String.◌∷◌ c p) (String.◌∷◌ d s) = if code c == code d then strip_prefix p s else none

abbrev pub longer : Char → Option (String × String) → Option (String × String)
longer c none = none
longer c (some (s, rest)) = some (String.◌∷◌ c s, rest)

abbrev pub is_slash : ℕ → Bool
is_slash c = c == b'/'

-- `split_once('/')`
unfoldable pub split_once : String → Option (String × String)
split_once String.[] = none
split_once (String.◌∷◌ c s) = if is_slash (code c) then some ("", s) else longer c (split_once s)

abbrev pub lengthen : Char → List String → List String
lengthen c [] = []
lengthen c (part ∷ parts) = String.◌∷◌ c part ∷ parts

-- `split('/')`
unfoldable pub split_slash : String → List String
split_slash String.[] = "" ∷ []
split_slash (String.◌∷◌ c s) =
    let parts = split_slash s in if is_slash (code c) then "" ∷ parts else lengthen c parts

unfoldable pub parse_s3_path : String → Result (String × String)
unfolding split_once strip_prefix
parse_s3_path path = do
  rest ← unwrap (strip_prefix "s3://" path) unwrap_none
  unwrap (split_once rest) unwrap_none

-- The path of an object.
abbrev pub object_path : String → String → String
object_path bucket key = "s3://" <> (bucket <> ("/" <> key))

-- `get_object`
unfoldable pub s3_read : World → String → Result (Option Bytes)
s3_read w path = do (bucket, key) ← parse_s3_path path; ok (w.objects (object_path bucket key))

abbrev pub is_present {ℓ} : {A : Type ℓ} → Option A → Bool
is_present none = false
is_present (some a) = true

-- `head_object`: any failure says that there is no such object, also one to answer for an object
-- that is there.
abbrev pub head_object : World → String → Bool
head_object w path = w.answers path && is_present (w.objects path)

unfoldable pub s3_exist : World → String → Result Bool
s3_exist w path = do (bucket, key) ← parse_s3_path path; ok (head_object w (object_path bucket key))

-- The world with an object in place.
abbrev pub stored : World → String → Bytes → World
stored w path content = record w {
  objects = λ p. if str_eq p path then some content else w.objects p;
}

-- `put_object`
unfoldable pub s3_write_file : World → String → Bytes → Result (World × Bool)
s3_write_file w path content = do
  (bucket, key) ← parse_s3_path path
  ok (
      if w.writable (object_path bucket key)
      then (stored w (object_path bucket key) content, true)
      else (w, false))

-- The directories of a key, each an object: the loop of `s3_create_dir_all`.
unfoldable pub make_dirs : World → String → List String → Result (World × Bool)
make_dirs w path [] = ok (w, true)
make_dirs w path (part ∷ parts) =
    let skipped = make_dirs w path parts in
    let made = (do
      exist ← s3_exist w (join path part)
      (w', done) ← (if exist then ok (w, true) else s3_write_file w (join path part) [])
      (let rest = make_dirs w' (join path part) parts in if done then rest else ok (w', false))) in
    if str_eq part "" then skipped else made

unfoldable pub s3_create_dir_all : World → String → Result (World × Bool)
s3_create_dir_all w path = do
  (bucket, key) ← parse_s3_path path
  make_dirs w ("s3://" <> bucket) (split_slash key)

-- `std::fs::create_dir_all`: a new directory is empty. The ones above it are not listed.
local_create_dir_all : World → String → World × Bool
local_create_dir_all w path = elim (w.dirs path) [
  | some names ↦ (w, true)
  | none ↦
      if w.writable path
      then (record w { dirs = λ p. if str_eq p path then some [] else w.dirs p }, true)
      else (w, false)
]

local_write : World → String → Bytes → World × Bool
local_write w path content = if w.writable path then (written w path content, true) else (w, false)

-- The methods of `File`, on what `new` makes of a path.
unfoldable pub read_file : World → String → Result (Option Bytes)
unfolding is_s3_path
read_file w path = if is_s3_path path then s3_read w path else ok (w.files path)

unfoldable pub write_file : World → String → Bytes → Result (World × Bool)
unfolding is_s3_path local_write
write_file w path content =
    if is_s3_path path then s3_write_file w path content else ok (local_write w path content)

unfoldable pub create_dir_all : World → String → Result (World × Bool)
unfolding is_s3_path local_create_dir_all
create_dir_all w path =
    if is_s3_path path then s3_create_dir_all w path else ok (local_create_dir_all w path)
