-- ===== src/Files/Dirs.antt =====
-- `s3_create_dir_all`, one directory of the key after the other.
use Prim.Native.String.{String, ◌++◌ as ◌<>◌}
use zkm_prover.Base.{
  ◌≡◌, refl, ap, subst, sym, ◌∙◌, Option-cases, ◌≢◌, Bool, true, false, none, some, List, [], ◌∷◌,
  All, all, any, ◌⊎◌, Bool-cases, arith, str_eq, eq_iff, if◌then◌else◌, inl, inr,
}
use zkm_prover.Platform.{
  Bytes, ok, Ensures, Ensures->>=, Ensures->>=_eq, >>=-eq-ok, Ensures-mono, World, join,
}
use zkm_prover.Files.{
  parse_s3_path, object_path, head_object, s3_exist, s3_write_file, stored, split_slash, make_dirs,
  s3_create_dir_all,
}
use zkm_prover.Files.Paths.{parse_s3_path_iff, has_no_slash}

-- The objects of one world in the other: an object is as it was, or it is empty, and then it is one
-- of the paths, and no question about it was answered.
abbrev pub KeepsObjects : World → List String → World → Type 0
KeepsObjects w paths w' =
    (path : String) (content : Bytes)
    → w.objects path ≡ some content
    → (w'.objects path ≡ some content)
      ⊎ ((w'.objects path ≡ some []) × (w.answers path ≡ false) × (any (str_eq path) paths ≡ true))

-- There is an object at a path.
abbrev pub HasObject : World → String → Type 0
HasObject w path = w.objects path ≢ none

-- The directories under a path that the parts of a key name, empty parts left out.
abbrev pub dir_paths : String → List String → List String
dir_paths path [] = []
dir_paths path (part ∷ parts) =
    let skipped = dir_paths path parts in
    let made = join path part ∷ dir_paths (join path part) parts in
    if str_eq part "" then skipped else made

-- Whether an object can be written, and a question about it is answered, does not change.
abbrev SameStore : World → World → Type 0
SameStore w w' = (w'.writable ≡ w.writable) × (w'.answers ≡ w.answers)

-- The call ends well, and all objects are there, or one of them cannot be written.
abbrev pub Completes : World → List String → World × Bool → Type 0
Completes w paths r =
    ((r.1 ≡ true) × All (HasObject r.0) paths) ⊎ ((r.1 ≡ false) × (all w.writable paths ≡ false))

-- What the loop gives.
abbrev pub AllMade : World → List String → World × Bool → Type 0
AllMade w paths r = KeepsObjects w paths r.0 × SameStore w r.0 × Completes w paths r

-- What a write to a path gives, where no object is seen.
stored-Made :
    (w : World) (path : String)
    → head_object w path ≡ false
    → AllMade w (path ∷ []) (if w.writable path then (stored w path [], true) else (w, false))
stored-Made w path unseen = elim (Bool-cases (w.writable path)) [
  | inl can ↦ rw can (
    (λ p content old. elim (Bool-cases (str_eq p path)) [
      | inl same ↦
          let its : p ≡ path = (eq_iff p path).0 same in
          let there : w.objects path ≡ some content = rw its at old in
          let unanswered : w.answers path ≡ false = ground (arith, there, unseen) in
          inr (rw same, ap w.answers its ∙ unanswered, rw same)
      | inr other ↦ inl (rw other old)
    ]),
    (refl, refl),
    inl (refl, ((λ none_there. ground (arith, eq_iff path path)), tt)),
  )
  | inr cannot ↦ rw cannot ((λ p content old. inl old), (refl, refl), inr (refl, refl))
]

s3_write_file-Made :
    (w : World) (path : String)
    → head_object w path ≡ false
    → Ensures (AllMade w (path ∷ [])) (s3_write_file w path [])
unfolding s3_write_file
s3_write_file-Made w path unseen =
    Ensures->>=_eq (AllMade w (path ∷ [])) (parse_s3_path path) _ λ parts e.
      let same = (parse_s3_path_iff path parts.0 parts.1).0 e in
      rw (← same.0) (stored-Made w path unseen)

seen-HasObject : (w : World) (path : String) → head_object w path ≡ true → HasObject w path
seen-HasObject w path seen missing = ground (arith, missing, seen)

-- One directory.
ensure_dir-Made :
    (w : World) (path : String) (exist : Bool)
    → head_object w path ≡ exist
    → Ensures (AllMade w (path ∷ [])) (if exist then ok (w, true) else s3_write_file w path [])
ensure_dir-Made w path true e =
    ((λ p content old. inl old), (refl, refl), inl (refl, (seen-HasObject w path e, tt)))
ensure_dir-Made w path false e = s3_write_file-Made w path e

-- An object stays one.
HasObject-kept :
    (w w' : World) (paths : List String) (path : String)
    → KeepsObjects w paths w'
    → HasObject w path
    → HasObject w' path
HasObject-kept w w' paths path keeps here missing = elim (Option-cases (w.objects path)) [
  | inl none_there ↦ here none_there
  | inr (content, there) ↦ elim (keeps path content there) [
    | inl same ↦ cc (same, missing)
    | inr emptied ↦ cc (emptied.0, missing)
  ]
]

any-cons_left :
    (path q : String) (paths : List String)
    → any (str_eq path) (q ∷ []) ≡ true
    → any (str_eq path) (q ∷ paths) ≡ true
any-cons_left path q paths h = ground arith

any-cons_right :
    (path q : String) (paths : List String)
    → any (str_eq path) paths ≡ true
    → any (str_eq path) (q ∷ paths) ≡ true
any-cons_right path q paths h = ground arith

KeepsObjects-cons :
    (w w' w'' : World) (q : String) (paths : List String)
    → SameStore w w'
    → KeepsObjects w (q ∷ []) w'
    → KeepsObjects w' paths w''
    → KeepsObjects w (q ∷ paths) w''
KeepsObjects-cons w w' w'' q paths same first rest path content old =
    elim (first path content old) [
      | inl kept ↦ elim (rest path content kept) [
        | inl still ↦ inl still
        | inr (emptied, unanswered, named) ↦
            inr (
              emptied,
              ap (λ f. f path) (sym same.1) ∙ unanswered,
              any-cons_right path q paths named,
            )
      ]
      | inr (emptied, unanswered, named) ↦
          let empty : w''.objects path ≡ some [] = elim (rest path [] emptied) [
            | inl still ↦ still
            | inr again ↦ again.0
          ] in
          inr (empty, unanswered, any-cons_left path q paths named)
    ]

dir_paths-skip :
    (path part : String) (parts : List String)
    → str_eq part "" ≡ true
    → dir_paths path (part ∷ parts) ≡ dir_paths path parts
dir_paths-skip path part parts e = rw e

dir_paths-cons :
    (path part : String) (parts : List String)
    → str_eq part "" ≡ false
    → dir_paths path (part ∷ parts) ≡ join path part ∷ dir_paths (join path part) parts
dir_paths-cons path part parts e = rw e

not_all-cons :
    (f : String → Bool) (q : String) (paths : List String)
    → all f paths ≡ false
    → all f (q ∷ paths) ≡ false
not_all-cons f q paths h = ground arith

not_all-first :
    (f : String → Bool) (q : String) (paths : List String)
    → all f (q ∷ []) ≡ false
    → all f (q ∷ paths) ≡ false
not_all-first f q paths h = ground arith

Completes-cons :
    (w w' : World) (q : String) (paths : List String) (r : World × Bool)
    → SameStore w w'
    → HasObject w' q
    → KeepsObjects w' paths r.0
    → Completes w' paths r
    → Completes w (q ∷ paths) r
Completes-cons w w' q paths r same here keeps (inl (done, made)) =
    inl (done, (HasObject-kept w' r.0 paths q keeps here, made))
Completes-cons w w' q paths r same here keeps (inr (stopped, unwritable)) =
    inr (stopped, not_all-cons w.writable q paths (ap (λ f. all f paths) (sym same.0) ∙ unwritable))

go_on :
    (w : World) (q : String) (parts paths : List String) (r : World × Bool)
    → AllMade w (q ∷ []) r
    → Ensures (AllMade r.0 paths) (make_dirs r.0 q parts)
    → Ensures (AllMade w (q ∷ paths)) (if r.1 then make_dirs r.0 q parts else ok (r.0, false))
go_on w q parts paths (w', true) (keeps, same, inr stopped) rest = cc (stopped.0)
go_on w q parts paths (w', true) (keeps, same, inl made) rest =
    Ensures-mono {Q = AllMade w (q ∷ paths)} _ rest λ r h. (
      KeepsObjects-cons w w' r.0 q paths same keeps h.0,
      (h.1.0 ∙ same.0, h.1.1 ∙ same.1),
      Completes-cons w w' q paths r same made.1.0 h.0 h.2,
    )
go_on w q parts paths (w', false) (keeps, same, inl made) rest = cc (made.0)
go_on w q parts paths (w', false) (keeps, same, inr stopped) rest = (
  KeepsObjects-cons w w' w' q paths same keeps (λ p content old. inl old),
  same,
  inr (refl, not_all-first w.writable q paths stopped.1),
)

ok_injective {ℓ} : {A : Type ℓ} {a b : A} → ok a ≡ ok b → a ≡ b
ok_injective h = cc

s3_exist-eq :
    (w : World) (path : String) (exist : Bool)
    → s3_exist w path ≡ ok exist
    → head_object w path ≡ exist
unfolding s3_exist
s3_exist-eq w path exist h =
    let (parts, parsed, found) = >>=-eq-ok (parse_s3_path path) _ h in
    let same = (parse_s3_path_iff path parts.0 parts.1).0 parsed in
    ap (head_object w) same.0 ∙ ok_injective found

make_dirs-AllMade :
    (w : World) (path : String) (parts : List String)
    → Ensures (AllMade w (dir_paths path parts)) (make_dirs w path parts)
unfolding make_dirs
make_dirs-AllMade w path [] = ((λ p content old. inl old), (refl, refl), inl (refl, tt))
make_dirs-AllMade w path (part ∷ parts) = elim (Bool-cases (str_eq part "")) [
  | inl skipped ↦
      subst (λ paths. Ensures (AllMade w paths) (make_dirs w path (part ∷ parts)))
        (sym (dir_paths-skip path part parts skipped)) (rw skipped (make_dirs-AllMade w path parts))
  | inr named ↦
      subst (λ paths. Ensures (AllMade w paths) (make_dirs w path (part ∷ parts)))
        (sym (dir_paths-cons path part parts named))
        (rw named (
          Ensures->>=_eq _ (s3_exist w (join path part)) _ λ exist e.
            Ensures->>= _ _ _
              (ensure_dir-Made w (join path part) exist (s3_exist-eq w (join path part) exist e))
              (λ r made.
                go_on w (join path part) parts (dir_paths (join path part) parts) r made
                  (make_dirs-AllMade r.0 (join path part) parts))))
]

-- Where `s3_create_dir_all` returns, it has the directories of the path made.
pub s3_create_dir_all-AllMade :
    (w : World) (bucket key : String)
    → has_no_slash bucket ≡ true
    → Ensures
        (AllMade w (dir_paths ("s3://" <> bucket) (split_slash key)))
        (s3_create_dir_all w (object_path bucket key))
unfolding s3_create_dir_all
s3_create_dir_all-AllMade w bucket key clear =
    rw ((parse_s3_path_iff (object_path bucket key) bucket key).1 (refl, clear))
      (make_dirs-AllMade w ("s3://" <> bucket) (split_slash key))
