-- ===== src/Tasks/Progress.antt =====
-- The macros `on_task!`, `on_prove_task!` and `get_task!` of proof-service/src/stage/stage.rs.
-- `on_task!` is written over the fields that it touches; the handlers of Stage expand it on whole
-- tasks.
use zkm_prover.Base.{ℕ, suc, Bool, true, false, ◌||◌, ◌==◌, ltb, if◌then◌else◌}
use zkm_prover.Platform.{Bytes}
use zkm_prover.Tasks.{
  Trace, ProveTask, task_state_unprocessed, task_state_success, task_state_failed,
}

-- What a reply and a stored task have in common.
pub record Progress : Type 0 where
  pub state : ℕ
  pub trace : Trace
  pub output : Bytes

-- The first test of both macros: the reply says how the call ended.
abbrev pub is_settled : ℕ → Bool
is_settled state =
    state == task_state_failed || state == task_state_success || state == task_state_unprocessed

-- The test of `get_task!` and of the two `get_…_task` loops.
abbrev pub is_open : ℕ → Bool
is_open state = state == task_state_unprocessed || state == task_state_failed

-- The stored task after the reply, the reply (its trace is written too), and whether the stage is
-- to be marked as failed.
pub record Handled (T : Type 0) : Type 0 where
  pub src : T
  pub dst : T
  pub fails : Bool

abbrev finish : ℕ → Trace → Trace
finish now t = record t { finish_ts = now }

unfoldable pub on_task : ℕ → Progress → Progress → Handled Progress
on_task now src dst =
    if is_settled src.state
    then (if src.state == task_state_unprocessed
        then record { src = src; dst = record dst { state = src.state }; fails = false }
        else record {
          src = record src { trace = finish now src.trace };
          dst = record { state = src.state; trace = finish now dst.trace; output = src.output };
          fails = src.state == task_state_failed;
        })
    else record { src = src; dst = dst; fails = false }

abbrev pub max_failures : ℕ
max_failures = 3

-- The tail of `on_prove_task!`: a failure is counted, and the fourth marks the stage.
count_failure : ProveTask → ProveTask → Handled ProveTask
count_failure src dst =
    if src.state == task_state_failed
    then (if ltb dst.failure_count max_failures
        then record {
          src = src;
          dst = record dst { failure_count = suc dst.failure_count };
          fails = false;
        }
        else record { src = src; dst = dst; fails = true })
    else record { src = src; dst = dst; fails = false }

unfoldable pub on_prove_task : ℕ → ProveTask → ProveTask → Handled ProveTask
unfolding count_failure
on_prove_task now src dst =
    if is_settled src.state
    then (if src.state == task_state_unprocessed
        then record { src = src; dst = record dst { state = src.state }; fails = false }
        else count_failure (record src { trace = finish now src.trace })
            (record dst {
              state = src.state;
              trace = record {
                start_ts = dst.trace.start_ts;
                finish_ts = now;
                node_info = src.trace.node_info;
              };
              output = src.output;
            }))
    else record { src = src; dst = dst; fails = false }
