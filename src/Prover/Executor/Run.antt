-- ===== src/Prover/Executor/Run.antt =====
-- The threads of `split_with_context`: the generator of the checkpoints, the channel, and the workers,
-- as a step relation. Of `TurnBasedSync`, which is third-party, it is used that `wait_for_turn` lets
-- a worker go on when its number is the turn, and that `advance_turn` makes the turn the next number.
use zkm_prover.Base.{ℕ, suc, ◌+◌, ◌≡◌, ◌<◌, String, Bool, some, List, [], ◌∷◌, ◌++◌, length}
use zkm_prover.Platform.{Bytes, ok, World}
use zkm_prover.Stage.Segments.{show, segment_path, codes}
use zkm_prover.Stage.Segments.Names.{count_path}
use zkm_prover.Prover.Machine.{PublicValues, Segment, Machine}
use zkm_prover.Prover.Executor.{Shared, take_turn, write_file, numbered}

-- A checkpoint, and whether it is the last one.
abbrev pub Checkpoint : Type 0 → Type 0
Checkpoint S = S × Bool

-- `to_come` has not been sent; `at_work` are the checkpoints that workers hold before their turn;
-- `writing` has, for each worker after its turn, the segments that it still has to write.
pub record Threads (S E : Type 0) : Type 0 where
  pub to_come : List (Checkpoint S)
  pub index : ℕ
  pub channel : List (ℕ × Checkpoint S)
  pub at_work : List (ℕ × Checkpoint S)
  pub turn : ℕ
  pub shared : Shared E
  pub writing : List (List (ℕ × Bytes))
  pub world : World

-- `opts`, and the directory of the segments.
pub record Options : Type 0 where
  pub checkpoints_channel_capacity : ℕ
  pub trace_gen_workers : ℕ
  pub seg_path : String

-- `PublicValues::default().reset()` is a parameter.
unfoldable pub start :
    {S E : Type 0} → Machine S E → PublicValues → World → List (Checkpoint S) → Threads S E
start m reset w checkpoints = record {
  to_come = checkpoints;
  index = 0;
  channel = [];
  at_work = [];
  turn = 0;
  shared = record { state = reset; deferred = m.no_events; segment_index = 0 };
  writing = [];
  world = w;
}

module _ {S E : Type 0} (m : Machine S E) (opts : Options) where
  -- One step of a thread. A worker is free, holds a checkpoint, or writes. Nothing panics: a run in
  -- which a file cannot be written goes no further here.
  pub data Step : Threads S E → Threads S E → Type 0 where
    sends :
        (t : Threads S E) (c : Checkpoint S) (cs : List (Checkpoint S))
        → t.to_come ≡ c ∷ cs
        → length t.channel < opts.checkpoints_channel_capacity
        → Step t (record t {
          to_come = cs;
          index = suc t.index;
          channel = t.channel ++ (t.index, c) ∷ [];
        })
    receives :
        (t : Threads S E) (c : ℕ × Checkpoint S) (cs : List (ℕ × Checkpoint S))
        → t.channel ≡ c ∷ cs
        → length t.at_work + length t.writing < opts.trace_gen_workers
        → Step t (record t { channel = cs; at_work = t.at_work ++ c ∷ [] })
    takes_turn :
        (t : Threads S E) (before behind : List (ℕ × Checkpoint S)) (index : ℕ) (exe_state : S)
        (done : Bool) (shared : Shared E) (segments : List (Segment S E)) (w : World)
        → t.at_work ≡ before ++ (index, (exe_state, done)) ∷ behind
        → index ≡ t.turn
        → take_turn m exe_state done t.shared ≡ ok (shared, segments)
        → write_file t.world (count_path opts.seg_path) (codes (show shared.segment_index)) ≡ some w
        → Step t (record t {
          at_work = before ++ behind;
          turn = suc t.turn;
          shared = shared;
          writing = t.writing ++ numbered m t.shared.segment_index segments ∷ [];
          world = w;
        })
    writes :
        (t : Threads S E) (before behind : List (List (ℕ × Bytes))) (others more : List (ℕ × Bytes))
        (file_no : ℕ) (content : Bytes) (w : World)
        → t.writing ≡ before ++ (others ++ (file_no, content) ∷ more) ∷ behind
        → write_file t.world (segment_path opts.seg_path file_no) content ≡ some w
        → Step t (record t { writing = before ++ (others ++ more) ∷ behind; world = w })
    is_free :
        (t : Threads S E) (before behind : List (List (ℕ × Bytes)))
        → t.writing ≡ before ++ [] ∷ behind
        → Step t (record t { writing = before ++ behind })

  pub data Reach (t : Threads S E) : Threads S E → Type 0 where
    here : Reach t t
    next : {u v : Threads S E} → Reach t u → Step u v → Reach t v
