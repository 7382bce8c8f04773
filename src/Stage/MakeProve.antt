-- ===== src/Stage/MakeProve.antt =====
-- The making of prove tasks: `task_with_no`, `gen_prove_task` and `gen_prove_task_post`.
use Prim.Native.String.{◌++◌ as ◌<>◌}
use zkm_prover.Base.{
  ℕ, zero, suc, ◌-◌, String, Bool, true, false, ◌||◌, some, none, List, [], ◌∷◌, ◌++◌, ltb, leb,
  if◌then◌else◌, length, is_empty, take,
}
use zkm_prover.Platform.{Result, ok, unwrap, ◌>>=◌, Env, World, safe_read, draw, join, unwrap_none}
use zkm_prover.Tasks.{Step, GenerateTask, ProveTask, task_state_unprocessed, task_state_success}
use zkm_prover.Tasks.Agg.{default_trace}
use zkm_prover.Tasks.Generate.{gen_program}
use zkm_prover.Stage.{Stage, Backend}
use zkm_prover.Stage.Segments.{read_segment_count, deferred_number, segment_path, show}

abbrev pub is_split : Step → Bool
is_split Step.split = true
is_split _ = false

unfoldable pub task_with_no : Env → World → GenerateTask → ℕ → Result ProveTask
task_with_no env w g file_no = do
  program ← gen_program env w g
  ok (record {
    task_id = env.uuid w.drawn;
    program_id = g.program_id;
    proof_id = g.proof_id;
    state = task_state_unprocessed;
    base_dir = g.base_dir;
    file_no = file_no;
    is_deferred = false;
    segment = segment_path g.seg_path file_no;
    program = program;
    output = [];
    trace = default_trace;
    failure_count = 0;
  })

-- `n` tasks from `file_no` on. (The source makes some of these in parallel, in the same order.)
unfoldable pub tasks_from : Env → World → GenerateTask → ℕ → ℕ → Result (List ProveTask × World)
tasks_from env w g file_no zero = ok ([], w)
tasks_from env w g file_no (suc n) = do
  task ← task_with_no env w g file_no
  (tasks, w') ← tasks_from env (draw w) g (suc file_no) n
  ok (task ∷ tasks, w')

abbrev pub preallocated : ℕ
preallocated = 64

-- The first 64 tasks, made when there is none.
unfoldable pub preallocate : Env → World → Stage → Result (Stage × World)
preallocate env w s =
    if is_empty s.prove_tasks
    then (do
      (tasks, w') ← tasks_from env w s.generate_task 0 preallocated
      ok (record s { prove_tasks = tasks }, w'))
    else ok (s, w)

-- Tasks for `len .. upto` are pushed.
unfoldable pub extend_to : Env → World → Stage → ℕ → Result (Stage × World)
extend_to env w s upto = do
  let have = length s.prove_tasks
  (tasks, w') ← tasks_from env w s.generate_task have (upto - have)
  ok (record s { prove_tasks = s.prove_tasks ++ tasks }, w')

-- A missing or unreadable `segments.txt` ends the call.
unfoldable pub extend_to_segments : Env → World → Stage → Result (Stage × World)
unfolding extend_to
extend_to_segments env w s = elim (read_segment_count w s.generate_task.seg_path) [
  | some upto ↦ extend_to env w s upto
  | none ↦ ok (s, w)
]

unfoldable pub gen_prove_task : Env → World → Stage → Result (Stage × World)
unfolding preallocate extend_to_segments
gen_prove_task env w s =
    if is_split s.generate_task.target_step || s.is_tasks_gen_done
    then ok (s, w)
    else (do (s', w') ← preallocate env w s; extend_to_segments env w' s')

-- Exactly `total_segments` tasks are kept.
unfoldable pub fit_to_segments : Env → World → Stage → Result (Stage × World)
unfolding extend_to
fit_to_segments env w s =
    if ltb s.split_task.total_segments (length s.prove_tasks)
    then ok (record s { prove_tasks = take s.split_task.total_segments s.prove_tasks }, w)
    else extend_to env w s s.split_task.total_segments

-- The numbered deferred proofs of a directory.
deferred_files : List String → List (ℕ × String)
deferred_files [] = []
deferred_files (name ∷ names) = elim (deferred_number name) [
  | some number ↦ (number, name) ∷ deferred_files names
  | none ↦ deferred_files names
]

insert_by_key : ℕ × String → List (ℕ × String) → List (ℕ × String)
insert_by_key f [] = f ∷ []
insert_by_key (n, name) ((m, other) ∷ fs) =
    if leb n m then (n, name) ∷ (m, other) ∷ fs else (m, other) ∷ insert_by_key (n, name) fs

-- `sort_by_key`, which is stable.
sort_by_key : List (ℕ × String) → List (ℕ × String)
unfolding insert_by_key
sort_by_key [] = []
sort_by_key (f ∷ fs) = insert_by_key f (sort_by_key fs)

-- A deferred proof is a task that has succeeded already; its output is the file.
unfoldable pub deferred_task : Env → World → GenerateTask → ℕ × String → Result ProveTask
deferred_task env w g (file_no, file_name) = do
  program ← gen_program env w g
  ok (record {
    task_id = env.uuid w.drawn;
    program_id = "";
    proof_id = g.proof_id;
    state = task_state_success;
    base_dir = g.base_dir;
    file_no = file_no;
    is_deferred = true;
    segment = "";
    program = program;
    output = safe_read w (join g.seg_path file_name);
    trace = default_trace;
    failure_count = 0;
  })

unfoldable pub deferred_tasks :
    Env → World → GenerateTask → List (ℕ × String) → Result (List ProveTask × World)
unfolding deferred_task
deferred_tasks env w g [] = ok ([], w)
deferred_tasks env w g (f ∷ fs) = do
  task ← deferred_task env w g f
  (tasks, w') ← deferred_tasks env (draw w) g fs
  ok (task ∷ tasks, w')

unfoldable pub push_deferred : Env → World → Stage → Result (Stage × World)
unfolding deferred_tasks deferred_files sort_by_key
push_deferred env w s = do
  names ← unwrap (w.dirs s.generate_task.seg_path) unwrap_none
  (tasks, w') ← deferred_tasks env w s.generate_task (sort_by_key (deferred_files names))
  ok (record s { prove_tasks = s.prove_tasks ++ tasks }, w')

-- Too few segments to aggregate.
unfoldable pub require_two : Stage → Stage
require_two s =
    if ltb (length s.prove_tasks) 2
    then record s {
      is_error = true;
      errmsg = "Segment count is " <> (show (length s.prove_tasks) <> ", please reduce SEG_SIZE !");
    }
    else s

unfoldable pub finish_post : Backend → Env → World → Stage → Result (Stage × World)
unfolding push_deferred require_two
finish_post Backend.prover env w s = ok (require_two s, w)
finish_post Backend.prover_v2 env w s = push_deferred env w s

unfoldable pub gen_prove_task_post : Backend → Env → World → Stage → Result (Stage × World)
unfolding fit_to_segments finish_post
gen_prove_task_post backend env w s = do
  (s', w') ← fit_to_segments env w s
  finish_post backend env w' s'
