-- ===== src/Stage/Snark.antt =====
-- The last task of a stage and the single-node shortcut: `gen_snark_task`, `get_snark_task`,
-- `on_snark_task`, `get_single_node_task`, `on_single_node_task`.
use zkm_prover.Base.{
  String, true, false, ◌||◌, Option, none, some, List, [], ◌∷◌, ◌==◌, if◌then◌else◌,
}
use zkm_prover.Platform.{
  Bytes, Result, ok, panic, assert, unwrap, ◌>>=◌, ◌>>◌, Env, World, draw, write, assertion_failed,
  unwrap_none, index_out_of_bounds, entered_unreachable,
}
use zkm_prover.Tasks.{
  Step, AggTask, SnarkTask, SingleNodeTask, task_state_initial, task_state_unprocessed,
  task_state_processing, task_state_success,
}
use zkm_prover.Tasks.Agg.{default_trace}
use zkm_prover.Tasks.Progress.{Progress, is_open, on_task}
use zkm_prover.Stage.{Stage}
use zkm_prover.Stage.Agg.{is_agg_step}

-- The loop over the aggregation tasks: each final one overwrites the receipt.
unfoldable pub take_final : List AggTask → SnarkTask → SnarkTask
take_final [] t = t
take_final (a ∷ aggs) t =
    take_final aggs
      (if a.is_final then record t { agg_receipt = a.output; from_input = false } else t)

first_receipt : List Bytes → Result Bytes
first_receipt [] = panic index_out_of_bounds
first_receipt (receipt ∷ receipts) = ok receipt

read_receipt : Env → World → String → SnarkTask → Result SnarkTask
unfolding first_receipt
read_receipt env w path t = do
  content ← unwrap (w.files path) unwrap_none
  receipts ← unwrap (env.deserialize content) unwrap_none
  receipt ← first_receipt receipts
  ok (record t { agg_receipt = receipt; from_input = true })

unfoldable pub fill_receipt : Step → Env → World → Stage → SnarkTask → Result SnarkTask
unfolding take_final read_receipt
fill_receipt Step.init env w s t = ok (take_final s.agg_tasks t)
fill_receipt Step.agg env w s t = read_receipt env w s.generate_task.receipt_inputs_path t
fill_receipt _ env w s t = panic entered_unreachable

unfoldable pub gen_snark_task : Env → World → Stage → Result (Stage × World)
unfolding fill_receipt
gen_snark_task env w s = do
  let g = s.generate_task
  assert (s.snark_task.state == task_state_initial) assertion_failed
  t ← fill_receipt g.from_step env w s (record s.snark_task {
    proof_id = g.proof_id;
    input_dir = g.agg_path;
    output_path = g.snark_path;
    task_id = env.uuid w.drawn;
    state = task_state_unprocessed;
  })
  ok (record s { snark_task = t }, draw w)

unfoldable pub get_snark_task : World → Stage → Stage × Option SnarkTask
get_snark_task w s =
    let t = s.snark_task in
    let taken = record t {
      state = task_state_processing;
      trace = record t.trace { start_ts = w.now };
    } in
    if is_open t.state then (record s { snark_task = taken }, some taken) else (s, none)

abbrev progress : SnarkTask → Progress
progress t = record { state = t.state; trace = t.trace; output = t.output }

abbrev with_progress : SnarkTask → Progress → SnarkTask
with_progress t p = record t { state = p.state; trace = p.trace; output = p.output }

-- The reply's output is written whatever its state is.
unfoldable pub on_snark_reply : World → SnarkTask → Stage → Result (Stage × SnarkTask × World)
unfolding on_task write
on_snark_reply w src s = do
  let handled = on_task w.now (progress src) (progress s.snark_task)
  w' ← write w s.generate_task.snark_path src.output
  ok (
    record s {
      snark_task = with_progress s.snark_task handled.dst;
      is_error = handled.fails || s.is_error;
    },
    with_progress src handled.src,
    w',
  )

unfoldable pub get_single_node_task : Env → World → Stage → SingleNodeTask × World
get_single_node_task env w s =
    let g = s.generate_task in
    (
      record {
        task_id = env.uuid w.drawn;
        program_id = g.program_id;
        base_dir = g.base_dir;
        state = task_state_unprocessed;
        proof_id = g.proof_id;
        elf_path = g.elf_path;
        private_input_path = g.private_input_path;
        receipt_inputs_path = g.receipt_inputs_path;
        target_step = g.target_step;
        trace = default_trace;
        output = [];
        seg_size = g.seg_size;
        total_cycles = 0;
      },
      draw w,
    )

-- Any state but success marks the stage.
unfoldable pub on_single_node_reply : World → SingleNodeTask → Stage → Result (Stage × World)
unfolding write
on_single_node_reply w src s =
    if src.state == task_state_success
    then (do
      w' ←
          (if is_agg_step s.generate_task.target_step
            then write w s.generate_task.snark_path src.output
            else ok w)
      ok (record s { step = Step.end }, w'))
    else ok (record s { is_error = true }, w)
