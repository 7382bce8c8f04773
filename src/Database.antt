-- ===== src/Database.antt =====
-- proof-service/src/database.rs: the two tables that the service keeps, as lists of rows, and its
-- queries. `none` is an error: the server is down, or the key is taken.
pub mod Claims
pub mod Rows
use Prim.Native.Char.{code}
use zkm_prover.Base.{
  ℕ, suc, ◌+◌, String, Bool, not, ◌&&◌, Option, none, some, List, [], ◌∷◌, ◌++◌, map, ltb, ◌==◌,
  str_eq, if◌then◌else◌, any, keep, take, find, count_if,
}
use zkm_prover.Platform.{Result, panic, ok, unwrap, ◌>>=◌, unwrap_none}

pub record StageTask : Type 0 where
  pub id : String
  pub status : ℕ
  pub context : Option String
  pub result : Option String
  pub check_at : ℕ
  pub step : ℕ

-- `database::ProveTask`, a finished task.
pub record TaskRow : Type 0 where
  pub id : String
  pub itype : ℕ
  pub proof_id : String
  pub status : ℕ
  pub time_cost : ℕ
  pub node_info : String
  pub content : Option String
  pub check_at : ℕ

pub record Database : Type 0 where
  pub is_up : Bool
  pub stage_tasks : List StageTask
  pub prove_tasks : List TaskRow
  pub users : List String

unfoldable pub get_incomplete_stage_tasks : Database → ℕ → ℕ → ℕ → Option (List StageTask)
get_incomplete_stage_tasks db status check_at limit =
    if db.is_up
    then some
        (take limit (keep (λ t. t.status == status && ltb t.check_at check_at) db.stage_tasks))
    else none

unfoldable pub get_stage_task : Database → String → Option StageTask
get_stage_task db proof_id =
    if db.is_up then find (λ t. str_eq t.id proof_id) db.stage_tasks else none

-- The columns that the statement leaves out have their defaults. The address is read by no query.
unfoldable pub insert_stage_task : Database → String → String → ℕ → String → Option Database
insert_stage_task db proof_id address status context =
    let row : StageTask = record {
      id = proof_id;
      status = status;
      context = some context;
      result = none;
      check_at = 0;
      step = 0;
    } in
    if db.is_up && not (any (λ t. str_eq t.id proof_id) db.stage_tasks)
    then some (record db { stage_tasks = db.stage_tasks ++ row ∷ [] })
    else none

unfoldable pub update_stage_task : Database → String → ℕ → String → Option Database
update_stage_task db proof_id status result =
    let set = λ (t : StageTask).
      if str_eq t.id proof_id then record t { status = status; result = some result } else t in
    if db.is_up then some (record db { stage_tasks = map set db.stage_tasks }) else none

-- The rows that `WHERE id = ? AND check_at = ?` selects.
abbrev pub is_current : String → ℕ → StageTask → Bool
is_current proof_id check_at t = str_eq t.id proof_id && t.check_at == check_at

-- The rows with the new time and step, and how many have been selected.
unfoldable pub update_stage_task_check_at : Database → String → ℕ → ℕ → ℕ → Option (Database × ℕ)
update_stage_task_check_at db proof_id old_check_at check_at step =
    let set = λ (t : StageTask).
      if is_current proof_id old_check_at t
      then record t { check_at = check_at; step = step }
      else t in
    if db.is_up
    then some (
      record db { stage_tasks = map set db.stage_tasks },
      count_if (is_current proof_id old_check_at) db.stage_tasks,
    )
    else none

unfoldable pub insert_prove_task : Database → TaskRow → Option Database
insert_prove_task db row =
    if db.is_up && not (any (λ t. str_eq t.id row.id) db.prove_tasks)
    then some (record db { prove_tasks = db.prove_tasks ++ row ∷ [] })
    else none

unfoldable pub get_prove_tasks : Database → String → Option (List TaskRow)
get_prove_tasks db proof_id =
    if db.is_up then some (keep (λ t. str_eq t.proof_id proof_id) db.prove_tasks) else none

-- The rows of a proof of one kind, their contents decoded; a row with no content is a panic.
abbrev prepend {ℓ} : {A : Type ℓ} → A → Result (Option (List A)) → Result (Option (List A))
prepend a (panic reason) = panic reason
prepend a (ok none) = ok none
prepend a (ok (some as')) = ok (some (a ∷ as'))

decode_infos {ℓ} :
    {Info : Type ℓ} → (String → Option Info) → List TaskRow → Result (Option (List Info))
decode_infos decode [] = ok (some [])
decode_infos decode (row ∷ rows) = do
  content ← unwrap row.content unwrap_none
  let rest = decode_infos decode rows
  elim (decode content) [ none ↦ ok none | some info ↦ prepend info rest ]

unfoldable pub get_prove_task_infos {ℓ} :
    {Info : Type ℓ} → (String → Option Info) → Database → String → ℕ → Result (Option (List Info))
unfolding decode_infos
get_prove_task_infos decode db proof_id itype =
    if db.is_up
    then decode_infos decode
        (keep (λ t. str_eq t.proof_id proof_id && t.itype == itype) db.prove_tasks)
    else ok none

-- `trim_start_matches("0x")`
unfoldable pub trim_0x : String → String
trim_0x String.[] = ""
trim_0x (String.◌∷◌ c String.[]) = String.◌∷◌ c String.[]
trim_0x (String.◌∷◌ c (String.◌∷◌ d s)) =
    let rest = trim_0x s in
    if code c == b'0' && code d == b'x' then rest else String.◌∷◌ c (String.◌∷◌ d s)

-- The address is parsed and written with its checksum by third-party code.
unfoldable pub get_user : (String → Option String) → Database → String → Option (List String)
unfolding trim_0x
get_user checksum db address = elim (checksum address) [
  | none ↦ none
  | some checked ↦
      if db.is_up then some (keep (λ user. str_eq user (trim_0x checked)) db.users) else none
]
