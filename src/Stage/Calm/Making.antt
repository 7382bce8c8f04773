-- ===== src/Stage/Calm/Making.antt =====
-- Making prove tasks puts none of them to work.
use zkm_prover.Base.{
  ℕ, zero, suc, ◌-◌, ◌≡◌, refl, String, false, ◌==◌, ◌||◌, Option, none, some, List, [], ◌∷◌, ◌++◌,
  count_if-append, count_if-take-le, arith, Bool-cases, inl, inr, ltb, length, is_empty,
}
use zkm_prover.Platform.{
  Env, World, draw, Result, ok, Ensures, Ensures->>=, Ensures-mono, Ensures-any, unwrap,
  unwrap_none, ◌>>=◌,
}
use zkm_prover.Tasks.{GenerateTask, ProveTask, task_state_processing}
use zkm_prover.Tasks.Generate.{gen_program}
use zkm_prover.Stage.{Stage, Backend}
use zkm_prover.Stage.Segments.{read_segment_count}
use zkm_prover.Stage.MakeProve.{
  task_with_no, tasks_from, preallocated, preallocate, extend_to, extend_to_segments,
  gen_prove_task, fit_to_segments, deferred_task, deferred_tasks, push_deferred, require_two,
  finish_post, gen_prove_task_post, is_split,
}
use zkm_prover.Stage.Calm.{at_work, Calms, CalmsTo, Calms-refl, Calms-trans}

abbrev IsIdle : ProveTask → Type 0
IsIdle t = (t.state == task_state_processing) ≡ false

task_with_no-IsIdle :
    (env : Env) (w : World) (g : GenerateTask) (file_no : ℕ)
    → Ensures IsIdle (task_with_no env w g file_no)
unfolding task_with_no
task_with_no-IsIdle env w g file_no =
    Ensures->>= _ (gen_program env w g) _ (Ensures-any (gen_program env w g)) (λ program h. refl)

abbrev NoneAtWork : List ProveTask × World → Type 0
NoneAtWork r = at_work r.0 ≡ 0

tasks_from-NoneAtWork :
    (n : ℕ) (env : Env) (w : World) (g : GenerateTask) (file_no : ℕ)
    → Ensures NoneAtWork (tasks_from env w g file_no n)
unfolding tasks_from
tasks_from-NoneAtWork zero env w g file_no = refl
tasks_from-NoneAtWork (suc n) env w g file_no =
    Ensures->>= _ (task_with_no env w g file_no) _ (task_with_no-IsIdle env w g file_no) λ t idle.
      Ensures->>= _ (tasks_from env (draw w) g (suc file_no) n) _
        (tasks_from-NoneAtWork n env (draw w) g (suc file_no)) λ r idle_all. ground arith

pushed-Calms :
    (s : Stage) (made : Result (List ProveTask × World))
    → Ensures NoneAtWork made
    → Ensures (CalmsTo s) (made >>= λ r. ok (record s { prove_tasks = s.prove_tasks ++ r.0 }, r.1))
pushed-Calms s made idle_all = Ensures->>= _ made _ idle_all λ r idle. record {
  same_context = refl;
  no_more =
      (let a =
          count_if-append (λ (t : ProveTask). t.state == task_state_processing) s.prove_tasks r.0 in
        omega arith);
}

extend_to-Calms :
    (env : Env) (w : World) (s : Stage) (upto : ℕ) → Ensures (CalmsTo s) (extend_to env w s upto)
unfolding extend_to
extend_to-Calms env w s upto =
    let have = length s.prove_tasks in
    pushed-Calms s (tasks_from env w s.generate_task have (upto - have))
      (tasks_from-NoneAtWork (upto - have) env w s.generate_task have)

preallocate-Calms : (env : Env) (w : World) (s : Stage) → Ensures (CalmsTo s) (preallocate env w s)
unfolding preallocate
preallocate-Calms env w s = elim (Bool-cases (is_empty s.prove_tasks)) [
  | inl empty ↦ rw empty (
      Ensures->>= _ (tasks_from env w s.generate_task 0 preallocated) _
        (tasks_from-NoneAtWork preallocated env w s.generate_task 0)
        λ r idle_all. record { same_context = refl; no_more = omega arith })
  | inr some_there ↦ rw some_there (Calms-refl s)
]

extend_to_segments-Calms :
    (env : Env) (w : World) (s : Stage) → Ensures (CalmsTo s) (extend_to_segments env w s)
unfolding extend_to_segments
extend_to_segments-Calms env w s =
    elim (read_segment_count w s.generate_task.seg_path)
      as (λ (o : Option ℕ).
        Ensures (λ (r : Stage × World). Calms s r.0)
          (elim o [ some upto ↦ extend_to env w s upto | none ↦ ok (s, w) ])) [
            | none ↦ Calms-refl s
            | some upto ↦ extend_to-Calms env w s upto
          ]

pub gen_prove_task-Calms :
    (env : Env) (w : World) (s : Stage) → Ensures (CalmsTo s) (gen_prove_task env w s)
unfolding gen_prove_task
gen_prove_task-Calms env w s =
    elim (Bool-cases (is_split s.generate_task.target_step || s.is_tasks_gen_done)) [
      | inl skipped ↦ rw skipped (Calms-refl s)
      | inr made ↦ rw made (
          Ensures->>= _ (preallocate env w s) _ (preallocate-Calms env w s) λ r first.
            Ensures-mono (extend_to_segments env r.1 r.0) (extend_to_segments-Calms env r.1 r.0)
              λ q second. Calms-trans s r.0 q.0 first second)
    ]

fit_to_segments-Calms :
    (env : Env) (w : World) (s : Stage) → Ensures (CalmsTo s) (fit_to_segments env w s)
unfolding fit_to_segments
fit_to_segments-Calms env w s =
    elim (Bool-cases (ltb s.split_task.total_segments (length s.prove_tasks))) [
      | inl long ↦ rw long (record {
        same_context = refl;
        no_more =
            count_if-take-le (λ (t : ProveTask). t.state == task_state_processing)
              s.split_task.total_segments s.prove_tasks;
      })
      | inr short ↦ rw short (extend_to-Calms env w s s.split_task.total_segments)
    ]

deferred_task-IsIdle :
    (env : Env) (w : World) (g : GenerateTask) (f : ℕ × String)
    → Ensures IsIdle (deferred_task env w g f)
unfolding deferred_task
deferred_task-IsIdle env w g (file_no, name) =
    Ensures->>= _ (gen_program env w g) _ (Ensures-any (gen_program env w g)) (λ program h. refl)

deferred_tasks-NoneAtWork :
    (env : Env) (w : World) (g : GenerateTask) (fs : List (ℕ × String))
    → Ensures NoneAtWork (deferred_tasks env w g fs)
unfolding deferred_tasks
deferred_tasks-NoneAtWork env w g [] = refl
deferred_tasks-NoneAtWork env w g (f ∷ fs) =
    Ensures->>= _ (deferred_task env w g f) _ (deferred_task-IsIdle env w g f) λ t idle.
      Ensures->>= _ (deferred_tasks env (draw w) g fs) _
        (deferred_tasks-NoneAtWork env (draw w) g fs) λ r idle_all. ground arith

push_deferred-Calms :
    (env : Env) (w : World) (s : Stage) → Ensures (CalmsTo s) (push_deferred env w s)
unfolding push_deferred
push_deferred-Calms env w s =
    Ensures->>= _ (unwrap (w.dirs s.generate_task.seg_path) unwrap_none) _ (Ensures-any _)
      λ names h. pushed-Calms s _ (deferred_tasks-NoneAtWork env w s.generate_task _)

require_two-Calms : (s : Stage) → Calms s (require_two s)
unfolding require_two
require_two-Calms s = elim (Bool-cases (ltb (length s.prove_tasks) 2)) [
  | inl few ↦ rw few (record { same_context = refl; no_more = omega arith })
  | inr enough ↦ rw enough (Calms-refl s)
]

finish_post-Calms :
    (backend : Backend) (env : Env) (w : World) (s : Stage)
    → Ensures (CalmsTo s) (finish_post backend env w s)
unfolding finish_post
finish_post-Calms Backend.prover env w s = require_two-Calms s
finish_post-Calms Backend.prover_v2 env w s = push_deferred-Calms env w s

pub gen_prove_task_post-Calms :
    (backend : Backend) (env : Env) (w : World) (s : Stage)
    → Ensures (CalmsTo s) (gen_prove_task_post backend env w s)
unfolding gen_prove_task_post
gen_prove_task_post-Calms backend env w s =
    Ensures->>= _ (fit_to_segments env w s) _ (fit_to_segments-Calms env w s) λ r first.
      Ensures-mono (finish_post backend env r.1 r.0) (finish_post-Calms backend env r.1 r.0)
        λ q second. Calms-trans s r.0 q.0 first second
