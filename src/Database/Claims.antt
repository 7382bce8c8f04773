-- ===== src/Database/Claims.antt =====
-- How a worker claims a proof: by the time that it has read, which only one can take from the row.
use zkm_prover.Base.{
  subst, ℕ, ◌≡◌, ◌≢◌, refl, ap, String, some, List, [], ◌∷◌, map, ==_iff, if◌then◌else◌, count_if,
  arith, Bool-cases, inl, inr,
}
use zkm_prover.Database.{StageTask, Database, is_current, update_stage_task_check_at}

abbrev claimed : String → ℕ → ℕ → ℕ → StageTask → StageTask
claimed id old_check_at check_at step t =
    if is_current id old_check_at t then record t { check_at = check_at; step = step } else t

-- After a claim no row of that id has the old time.
claimed-none :
    (id : String) (old new step : ℕ) (ts : List StageTask)
    → old ≢ new
    → count_if (is_current id old) (map (claimed id old new step) ts) ≡ 0
claimed-none id old new step [] ne = refl
claimed-none id old new step (t ∷ ts) ne =
    ground (arith, claimed-none id old new step ts ne, ==_iff new old)

unclaimed-same :
    (id : String) (old new step : ℕ) (ts : List StageTask)
    → count_if (is_current id old) ts ≡ 0
    → map (claimed id old new step) ts ≡ ts
unclaimed-same id old new step [] h = refl
unclaimed-same id old new step (t ∷ ts) h = elim (Bool-cases (is_current id old t)) [
  | inl hit ↦ absurd (ground arith)
  | inr miss ↦ rw miss (ap (◌∷◌ t) (unclaimed-same id old new step ts (ground arith)))
]

-- Of two claims of a proof that start from the same time, the second selects no row and changes
-- nothing, if the first one moved the time.
pub update_stage_task_check_at_twice :
    (db db₁ : Database) (id : String) (old new₁ new₂ step₁ step₂ rows : ℕ)
    → old ≢ new₁
    → update_stage_task_check_at db id old new₁ step₁ ≡ some (db₁, rows)
    → update_stage_task_check_at db₁ id old new₂ step₂ ≡ some (db₁, 0)
unfolding update_stage_task_check_at
update_stage_task_check_at_twice db db₁ id old new₁ new₂ step₁ step₂ rows ne e =
    elim (Bool-cases db.is_up) [
      | inl up ↦
          let after : Database = record db {
            stage_tasks = map (claimed id old new₁ step₁) db.stage_tasks;
          } in
          let same : after ≡ db₁ = ground (arith, e) in
          let gone = claimed-none id old new₁ step₁ db.stage_tasks ne in
          subst (λ (x : Database). update_stage_task_check_at x id old new₂ step₂ ≡ some (x, 0))
            same (rw (up, unclaimed-same id old new₂ step₂ after.stage_tasks gone, gone))
      | inr down ↦ absurd (ground (arith, e))
    ]
