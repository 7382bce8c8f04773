-- ===== src/Tasks/Agg/Clear.antt =====
-- What `clear_child_task` does: one child of the given id is dropped, and nothing else changes.
use zkm_prover.Base.{
  ℕ, ◌+◌, ◌≡◌, refl, ◌⊎◌, String, Bool, true, false, Option, none, some, List, [], ◌∷◌, str_eq,
  eq_iff, any, count_if, arith,
}
use zkm_prover.Tasks.{AggTask}
use zkm_prover.Tasks.Agg.{clear_child, clear_child_task}

abbrev pub names : String → Option String → Bool
names id none = false
names id (some child) = str_eq child id

-- A child of this id is not done yet.
abbrev pub awaits : List (Option String) → String → Bool
awaits childs id = any (names id) childs

clear_child-awaits :
    (id other : String) (childs : List (Option String))
    → awaits childs other ≡ true
    → (awaits (clear_child id childs).0 other ≡ true) ⊎ (id ≡ other)
unfolding clear_child
clear_child-awaits id other [] h = cc
clear_child-awaits id other (none ∷ childs) h = clear_child-awaits id other childs h
clear_child-awaits id other (some c ∷ childs) h =
    ground (arith, eq_iff c id, eq_iff c other, clear_child-awaits id other childs)

-- Whoever is waited for is still waited for, or is the one that was cleared.
pub clear_child_task-awaits :
    (id other : String) (t : AggTask)
    → awaits t.childs other ≡ true
    → (awaits (clear_child_task id t).0.childs other ≡ true) ⊎ (id ≡ other)
unfolding clear_child_task
clear_child_task-awaits id other t h = ground (arith, clear_child-awaits id other t.childs h)

pub clear_child_task-keeps :
    (id : String) (t : AggTask)
    → let t' = (clear_child_task id t).0 in
      (t'.task_id ≡ t.task_id) × (t'.state ≡ t.state) × (t'.inputs ≡ t.inputs)
unfolding clear_child_task
clear_child_task-keeps id t = (ground arith, ground arith, ground arith)

-- How many children go by this id.
abbrev pub times_named : String → List (Option String) → ℕ
times_named id = count_if (names id)

abbrev pub flag : Bool → ℕ
flag true = 1
flag false = 0

clear_child-times_named :
    (id : String) (childs : List (Option String))
    → times_named id (clear_child id childs).0 + flag (clear_child id childs).1
      ≡ times_named id childs
unfolding clear_child
clear_child-times_named id [] = refl
clear_child-times_named id (none ∷ childs) = omega (arith, clear_child-times_named id childs)
clear_child-times_named id (some c ∷ childs) = ground (arith, clear_child-times_named id childs)

-- The result says whether one child of the id was cleared.
pub clear_child_task-times_named :
    (id : String) (t : AggTask)
    → times_named id (clear_child_task id t).0.childs + flag (clear_child_task id t).1
      ≡ times_named id t.childs
unfolding clear_child_task
clear_child_task-times_named id t = ground (arith, clear_child-times_named id t.childs)
