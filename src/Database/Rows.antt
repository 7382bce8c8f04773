-- ===== src/Database/Rows.antt =====
-- What the statements on `stage_task` do to the row that a later query finds.
use text.Mathlib.TextPositions.{eq_refl}
use zkm_prover.Base.{
  ℕ, ◌≡◌, refl, ap, subst, some_injective, ◌∙◌, String, Bool, true, false, Option, none, some, List,
  [], ◌∷◌, ◌++◌, map, str_eq, find, any, if◌then◌else◌, arith, Bool-cases, inl, inr,
}
use zkm_prover.Database.{
  StageTask, Database, is_current, update_stage_task, update_stage_task_check_at, get_stage_task,
  insert_stage_task,
}

abbrev has_id : String → StageTask → Bool
has_id id t = str_eq t.id id

abbrev changed : (StageTask → StageTask) → Option StageTask → Option StageTask
changed set none = none
changed set (some t) = some (set t)

find-map :
    (id : String) (set : StageTask → StageTask) (ts : List StageTask)
    → ((t : StageTask) → (set t).id ≡ t.id)
    → find (has_id id) (map set ts) ≡ changed set (find (has_id id) ts)
find-map id set [] same = refl
find-map id set (t ∷ ts) same = ground (arith, same t, find-map id set ts same)

find-has_id :
    (id : String) (ts : List StageTask) (t : StageTask)
    → find (has_id id) ts ≡ some t
    → str_eq t.id id ≡ true
find-has_id id [] t h = cc
find-has_id id (u ∷ ts) t h = ground (arith, find-has_id id ts t)

find-append :
    (id : String) (ts : List StageTask) (t : StageTask)
    → any (has_id id) ts ≡ false
    → str_eq t.id id ≡ true
    → find (has_id id) (ts ++ t ∷ []) ≡ some t
find-append id [] t h k = rw k
find-append id (u ∷ ts) t h k = ground (arith, find-append id ts t)

abbrev pub new_row : String → ℕ → String → StageTask
new_row id status context = record {
  id = id;
  status = status;
  context = some context;
  result = none;
  check_at = 0;
  step = 0;
}

pub get_stage_task-insert :
    (db db' : Database) (id address context : String) (status : ℕ)
    → insert_stage_task db id address status context ≡ some db'
    → get_stage_task db' id ≡ some (new_row id status context)
unfolding insert_stage_task get_stage_task
get_stage_task-insert db db' id address context status h = elim (Bool-cases db.is_up) [
  | inl up ↦ elim (Bool-cases (any (has_id id) db.stage_tasks)) [
    | inl known ↦ cc (rw (up, known) at h)
    | inr unknown ↦
        subst (λ (d : Database). get_stage_task d id ≡ some (new_row id status context))
          (some_injective (rw (up, unknown) at h))
          (find-append id db.stage_tasks (new_row id status context) unknown (eq_refl id))
  ]
  | inr down ↦ cc (rw down at h)
]

pub get_stage_task-update :
    (db db' : Database) (id result : String) (status : ℕ) (t : StageTask)
    → update_stage_task db id status result ≡ some db'
    → get_stage_task db id ≡ some t
    → get_stage_task db' id ≡ some (record t { status = status; result = some result })
unfolding update_stage_task get_stage_task
get_stage_task-update db db' id result status t h k = elim (Bool-cases db.is_up) [
  | inl up ↦
      let found : find (has_id id) db.stage_tasks ≡ some t = rw up at k in
      subst
        (λ (d : Database).
          get_stage_task d id ≡ some (record t { status = status; result = some result }))
        (some_injective (rw up at h))
        (find-map id
            (λ u. if str_eq u.id id then record u { status = status; result = some result } else u)
            db.stage_tasks (λ u. ground arith)
          ∙ rw (found, find-has_id id db.stage_tasks t found))
  | inr down ↦ cc (rw down at h)
]

-- A claim, whether it selects the row or not, leaves all but its time and step.
pub get_stage_task-update_check_at :
    (db db' : Database) (id : String) (old new step rows : ℕ) (t : StageTask)
    → update_stage_task_check_at db id old new step ≡ some (db', rows)
    → get_stage_task db id ≡ some t
    → (t' : StageTask) × (get_stage_task db' id ≡ some t')
      × (t'.context ≡ t.context)
      × (t'.status ≡ t.status)
      × (t.check_at ≡ old → t'.step ≡ step)
unfolding update_stage_task_check_at get_stage_task
get_stage_task-update_check_at db db' id old new step rows t h k = elim (Bool-cases db.is_up) [
  | inl up ↦
      let found : find (has_id id) db.stage_tasks ≡ some t = rw up at k in
      let set : StageTask → StageTask =
        λ u. if is_current id old u then record u { check_at = new; step = step } else u in
      (
        set t,
        subst (λ (d : Database). get_stage_task d id ≡ some (set t))
            (ap (λ p. p.0) (some_injective (rw up at h)))
            (find-map id set db.stage_tasks (λ u. ground arith) ∙ rw found),
        ground arith,
        ground arith,
        λ current. ground (arith, find-has_id id db.stage_tasks t found),
      )
  | inr down ↦ cc (rw down at h)
]
