-- ===== src/Examples/Splits.antt =====
-- A split of one checkpoint into two segments, and a node that has panicked.
use zkm_prover.Base.{
  ℕ, suc, ◌+◌, ◌≡◌, ◌⊎◌, refl, true, Option, none, some, List, [], ◌∷◌, map, length, get_elem?,
  indices_from, arith, Bool-cases, inl, inr, ◌==◌, if◌then◌else◌,
}
use zkm_prover.Platform.{Bytes, World, ok}
use zkm_prover.Stage.Segments.{show, segment_path, codes}
use zkm_prover.Stage.Segments.Names.{count_path}
use zkm_prover.Prover.Busy.{Node}
use zkm_prover.Prover.Busy
use zkm_prover.Prover.Machine.{PublicValues, Segment, of_state, of_record, Machine, TracesOne}
use zkm_prover.Prover.Executor.{Shared, take_turn, write_file, renamed}
use zkm_prover.Prover.Executor.Run.{
  Checkpoint, Threads, Options, start, sends, receives, takes_turn, writes, is_free, Reach, here,
  next,
}
use zkm_prover.Prover.Executor.Order.{run_all}
use zkm_prover.Prover.Executor.Ends.{AreDone, Reach-run_all}
use zkm_prover.Prover.Executor.Drain.{Ends, Moves, Reach-Ends}
use zkm_prover.Prover.Root.{max_retries, read_segment}
use zkm_prover.Prover.Root.Reads.{read_segment-run}

-- A program whose states and events are numbers.
abbrev values : ℕ → PublicValues
values n = record {
  shard = 0;
  execution_shard = n;
  start_pc = n;
  next_pc = suc n;
  committed_value_digest = 0;
  deferred_proofs_digest = 0;
  previous_init_addr_bits = 0;
  last_init_addr_bits = n;
  previous_finalize_addr_bits = 0;
  last_finalize_addr_bits = n;
}

abbrev list_of : PublicValues → List ℕ
list_of v =
    v.shard ∷ v.execution_shard ∷ v.start_pc ∷ v.next_pc ∷ v.committed_value_digest
    ∷ v.deferred_proofs_digest ∷ v.previous_init_addr_bits ∷ v.last_init_addr_bits
    ∷ v.previous_finalize_addr_bits ∷ v.last_finalize_addr_bits ∷ []

abbrev encoded : Segment ℕ ℕ → Bytes
encoded (of_state s v) = 0 ∷ s ∷ list_of v
encoded (of_record r) = 1 ∷ r.events ∷ list_of r.public_values

abbrev decoded : Bytes → Option (Segment ℕ ℕ)
decoded (tag ∷ n ∷ a ∷ b ∷ c ∷ d ∷ e ∷ f ∷ g ∷ h ∷ i ∷ j ∷ []) =
    let v : PublicValues = record {
      shard = a;
      execution_shard = b;
      start_pc = c;
      next_pc = d;
      committed_value_digest = e;
      deferred_proofs_digest = f;
      previous_init_addr_bits = g;
      last_init_addr_bits = h;
      previous_finalize_addr_bits = i;
      last_finalize_addr_bits = j;
    } in
    some (if tag == 0 then of_state n v else of_record (record { public_values = v; events = n }))
decoded other = none

decoded-encoded : (s : Segment ℕ ℕ) → decoded (encoded s) ≡ some s
decoded-encoded (of_state s v) = refl
decoded-encoded (of_record r) = refl

abbrev machine : Machine ℕ ℕ
machine = record {
  trace_checkpoint = λ s. record { public_values = values s; events = s } ∷ [];
  defer = λ e. (0, e);
  no_events = 0;
  append = λ d e. d + e;
  split =
      λ e done. if done then (0, record { public_values = values 0; events = e } ∷ []) else (e, []);
  encode = encoded;
  decode = decoded;
}

machine-TracesOne : TracesOne machine
machine-TracesOne s = (record { public_values = values s; events = s }, refl)

abbrev options : Options
options = record { checkpoints_channel_capacity = 1; trace_gen_workers = 2; seg_path = "segment" }

abbrev no_files : World
no_files = record {
  now = 0;
  drawn = 0;
  files = λ p. none;
  objects = λ p. none;
  dirs = λ p. none;
  writable = λ p. true;
  answers = λ p. true;
}

abbrev checkpoints : List (Checkpoint ℕ)
checkpoints = (7, true) ∷ []

abbrev begun : Threads ℕ ℕ
begun = record {
  to_come = checkpoints;
  index = 0;
  channel = [];
  at_work = [];
  turn = 0;
  shared = record { state = values 0; deferred = 0; segment_index = 0 };
  writing = [];
  world = no_files;
}

abbrev at_one : Threads ℕ ℕ
at_one = record begun { to_come = []; index = 1; at_work = (0, (7, true)) ∷ [] }

-- The checkpoint is sent and received.
one_received : Reach machine options (start machine (values 0) no_files checkpoints) at_one
unfolding start
one_received = next (next here (sends begun (7, true) [] refl (omega arith))) (
    receives (record begun { to_come = []; index = 1; channel = (0, (7, true)) ∷ [] })
      (0, (7, true)) [] refl (omega arith))

abbrev at_first : PublicValues
at_first = record (values 7) { shard = 1; last_init_addr_bits = 0; last_finalize_addr_bits = 0 }

abbrev at_second : PublicValues
at_second = record at_first { shard = 2; start_pc = 8 }

abbrev shared : Shared ℕ
shared = record { state = at_second; deferred = 0; segment_index = 2 }

abbrev second : Segment ℕ ℕ
second = of_record (record { public_values = at_second; events = 7 })

-- The segments of the split.
abbrev segments : List (Segment ℕ ℕ)
segments = of_state 7 at_first ∷ second ∷ []

abbrev counted : World
counted = renamed no_files (count_path "segment") (codes (show 2))

abbrev to_write : List (ℕ × Bytes)
to_write = (0, encoded (of_state 7 at_first)) ∷ (1, encoded second) ∷ []

abbrev turned : Threads ℕ ℕ
turned = record at_one {
  at_work = [];
  turn = 1;
  shared = shared;
  writing = to_write ∷ [];
  world = counted;
}

-- The second segment is written first.
abbrev second_there : World
second_there = renamed counted (segment_path "segment" 1) (encoded second)

abbrev both_there : World
both_there = renamed second_there (segment_path "segment" 0) (encoded (of_state 7 at_first))

abbrev over : Threads ℕ ℕ
over = record turned { writing = []; world = both_there }

split_over : Reach machine options (start machine (values 0) no_files checkpoints) over
unfolding take_turn write_file
split_over =
    next
      (next
        (next
          (next one_received
            (takes_turn at_one [] [] 0 7 true shared segments counted refl refl refl refl))
          (writes turned [] [] ((0, encoded (of_state 7 at_first)) ∷ []) [] 1 (encoded second)
            second_there refl refl))
        (writes
          (record turned {
            writing = ((0, encoded (of_state 7 at_first)) ∷ []) ∷ [];
            world = second_there;
          })
          [] [] [] [] 0 (encoded (of_state 7 at_first)) both_there refl refl))
      (is_free (record turned { writing = [] ∷ []; world = both_there }) [] [] refl)

over-AreDone : AreDone over
over-AreDone = record { all_sent = refl; all_received = refl; all_taken = refl; all_written = refl }

Reach-run_all_example :
    (made : List (Segment ℕ ℕ)) × (run_all machine checkpoints
        (start machine (values 0) no_files checkpoints).shared
      ≡ ok (over.shared, made))
    × (map (λ file_no. over.world.files (segment_path "segment" file_no)) (indices_from 0 made)
        ≡ map (λ s. some (encoded s)) made)
    × (over.world.files (count_path "segment") ≡ some (codes (show (length made))))
Reach-run_all_example =
    Reach-run_all machine options (values 0) no_files checkpoints machine-TracesOne (omega arith)
      split_over over-AreDone

Reach-Ends_example : Ends machine options at_one × (AreDone at_one ⊎ Moves machine options at_one)
Reach-Ends_example =
    Reach-Ends machine options (values 0) no_files checkpoints machine-TracesOne (omega arith)
      (omega arith) (λ path. refl) one_received

all_segments :
    run_all machine checkpoints (start machine (values 0) no_files checkpoints).shared
    ≡ ok (shared, segments)
unfolding run_all start take_turn
all_segments = refl

-- The first attempts meet a split that has written nothing, the last one a split that is over.
abbrev looks : ℕ → Threads ℕ ℕ
looks n = if n == max_retries then over else at_one

looks-reached :
    (n : ℕ) → Reach machine options (start machine (values 0) no_files checkpoints) (looks n)
looks-reached n = elim (Bool-cases (n == max_retries)) [
  | inl last ↦ rw last split_over
  | inr early ↦ rw early one_received
]

read_segment-run_example :
    let read = read_segment machine (λ n. (looks n).world) (segment_path "segment" 1) in
    (read ≡ get_elem? segments 1) ⊎ ((read ≡ none) × (¬ AreDone (looks max_retries)))
read_segment-run_example =
    read_segment-run machine decoded-encoded options (values 0) no_files (λ j. refl) checkpoints
      machine-TracesOne all_segments looks 1 looks-reached
