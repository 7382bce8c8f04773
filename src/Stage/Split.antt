-- ===== src/Stage/Split.antt =====
-- The split task of a stage: `gen_split_task`, `get_split_task`, `on_split_task`.
use zkm_prover.Base.{Option, none, some, ◌||◌, ◌==◌, if◌then◌else◌}
use zkm_prover.Platform.{Result, ok, assert, ◌>>◌, Env, World, draw, assertion_failed}
use zkm_prover.Tasks.{SplitTask, task_state_initial, task_state_unprocessed, task_state_processing}
use zkm_prover.Tasks.Progress.{Progress, is_open, on_task}
use zkm_prover.Stage.{Stage}

unfoldable pub gen_split_task : Env → World → Stage → Result (Stage × World)
gen_split_task env w s = do
  let g = s.generate_task
  assert (s.split_task.state == task_state_initial) assertion_failed
  ok (
    record s {
      split_task = record s.split_task {
        program_id = g.program_id;
        proof_id = g.proof_id;
        base_dir = g.base_dir;
        elf_path = g.elf_path;
        seg_path = g.seg_path;
        public_input_path = g.public_input_path;
        private_input_path = g.private_input_path;
        recepit_inputs_path = g.receipt_inputs_path;
        output_path = g.output_stream_path;
        block_no = g.block_no;
        seg_size = g.seg_size;
        task_id = env.uuid w.drawn;
        state = task_state_unprocessed;
      };
    },
    draw w,
  )

unfoldable pub get_split_task : World → Stage → Stage × Option SplitTask
get_split_task w s =
    let t = s.split_task in
    let taken = record t {
      state = task_state_processing;
      trace = record t.trace { start_ts = w.now };
    } in
    if is_open t.state then (record s { split_task = taken }, some taken) else (s, none)

abbrev progress : SplitTask → Progress
progress t = record { state = t.state; trace = t.trace; output = t.output }

abbrev with_progress : SplitTask → Progress → SplitTask
with_progress t p = record t { state = p.state; trace = p.trace; output = p.output }

-- The totals are taken over whatever the reply's state is.
unfoldable pub on_split_reply : World → SplitTask → Stage → Stage × SplitTask
unfolding on_task
on_split_reply w src s =
    let dst = record s.split_task {
      total_steps = src.total_steps;
      total_segments = src.total_segments;
    } in
    let handled = on_task w.now (progress src) (progress dst) in
    (
      record s {
        split_task = with_progress dst handled.dst;
        is_error = handled.fails || s.is_error;
      },
      with_progress src handled.src,
    )
