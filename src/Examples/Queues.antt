-- ===== src/Examples/Queues.antt =====
-- The task manager with three proofs, and a proof of a single node.
use zkm_prover.Base.{
  String, Option, Bool, false, if◌then◌else◌, ◌+◌, ◌≡◌, refl, ◌<◌, true, ◌&&◌, none, some, List, [],
  ◌∷◌, arith, take, keep, ltb, ◌==◌,
}
use zkm_prover.Platform.{Bytes, ok, World}
use zkm_prover.Tasks.{Step, SingleNodeTask, task_state_failed, task_state_success}
use zkm_prover.Tasks.Agg.{default_trace}
use zkm_prover.Stage.{Backend, default_split}
use zkm_prover.Nodes.{ProverNode, NodeStatus, get_idle_client}
use zkm_prover.Database.{StageTask, Database, get_stage_task, update_stage_task_check_at}
use zkm_prover.Client.Single.{Look, seek, begin_single_node, single_node_request, claim_on}
use zkm_prover.Worker.{Codec}
use zkm_prover.Worker.Finish.{status_computing, nothing, begin_task}
use zkm_prover.Worker.Status.{status_of}
use zkm_prover.Worker.Queue.{
  TaskManager, new, capacity, i32_max, load_incomplete_tasks_from_db, sent, started, ended,
  received, sends, receives, starts, ends, Reach, here, next,
}
use zkm_prover.Worker.Queue.Fifo.{IsOrderly, Reach-IsOrderly, load_incomplete_tasks_from_db-take}
use zkm_prover.Worker.Queue.Drain.{rank, Moves, Reach-drains}
use zkm_prover.Worker.Single.{end_single}
use zkm_prover.Worker.Single.Ends.{single_status, end_single-status}
use zkm_prover.Worker.Single.Lost.{begin_single_node-lost}
use zkm_prover.Service.Generate.{stage_task}
use zkm_prover.Examples.{example_env, example_world, example_generate, stage_with}

abbrev first : StageTask
first = stage_task "first" "context"

abbrev second : StageTask
second = stage_task "second" "context"

abbrev one_permit : TaskManager
one_permit = record { max_concurrent_tasks = 1; waiting = []; held = none; running = [] }

abbrev working : TaskManager
working = record one_permit { waiting = second ∷ []; running = first ∷ [] }

-- Two proofs are sent, and the first is started.
two_sent : Reach (new none) (started first ∷ received ∷ sent second ∷ sent first ∷ []) working
unfolding new
two_sent =
    next
      (next
        (next (next here (sends one_permit first (omega arith)))
          (sends (record one_permit { waiting = first ∷ [] }) second (omega arith)))
        (receives (record one_permit { waiting = first ∷ second ∷ [] }) first (second ∷ []) refl
          refl))
      (starts (record one_permit { waiting = second ∷ []; held = some first }) first refl
        (omega arith))

Reach-IsOrderly_example :
    IsOrderly
      (new none).max_concurrent_tasks
      (started first ∷ received ∷ sent second ∷ sent first ∷ [])
      working
Reach-IsOrderly_example = Reach-IsOrderly none two_sent

-- The first ends, and the second is received.
first_ends : Reach working (received ∷ ended first ∷ []) (record one_permit { held = some second })
first_ends =
    next (next here (ends working [] first [] refl))
      (receives (record one_permit { waiting = second ∷ [] }) second [] refl refl)

Reach-drains_example :
    (rank (record one_permit { held = some second }) + 2 ≡ rank working)
    × (0 < rank (record one_permit { held = some second })
        → Moves (record one_permit { held = some second }))
Reach-drains_example = Reach-drains (omega arith) first_ends refl

abbrev two_rows : Database
two_rows = record {
  is_up = true;
  stage_tasks = first ∷ record second { status = 0 } ∷ [];
  prove_tasks = [];
  users = [];
}

load_incomplete_tasks_from_db-take_example :
    load_incomplete_tasks_from_db two_rows 1000 []
    ≡ some (
        take capacity (
          take i32_max
            (keep (λ t. t.status == status_computing && ltb t.check_at 1000) two_rows.stage_tasks)))
load_incomplete_tasks_from_db-take_example = load_incomplete_tasks_from_db-take two_rows 1000 refl

-- The decoding of one short text; other bytes are taken for no text.
abbrev same_bytes : Bytes → Bool
same_bytes (b ∷ c ∷ []) = b == 123 && c == 125
same_bytes other = false

abbrev utf8 : Bytes → Option String
utf8 [] = some ""
utf8 (b ∷ bs) = if same_bytes (b ∷ bs) then some "{}" else none

abbrev codec : Codec
codec = record {
  to_json = λ task. "json";
  from_json = λ text. some (record example_generate { single_node = true });
  from_utf8 = utf8;
}

abbrev lost_task : SingleNodeTask
lost_task = record {
  task_id = "t";
  program_id = "program";
  base_dir = "base";
  state = task_state_failed;
  proof_id = "first";
  elf_path = "elf";
  private_input_path = "private";
  receipt_inputs_path = "";
  target_step = Step.snark;
  trace = default_trace;
  output = [];
  seg_size = 65536;
  total_cycles = 9;
}

abbrev proved_task : SingleNodeTask
proved_task = record lost_task { state = task_state_success; output = 123 ∷ 125 ∷ [] }

end_single-status_example :
    (db' : Database) × (w' : World) × (end_single codec example_world "first" 0 77
        (stage_with [])
        default_split
        (some proved_task)
        two_rows
      ≡ ok (db', w'))
    × (status_of (get_stage_task db' "first") ≡ some (single_status (some proved_task)))
end_single-status_example =
    end_single-status codec "first" 0 77 example_world (stage_with []) default_split
      (some proved_task) "{}" two_rows refl refl refl refl refl

abbrev nodes : List ProverNode
nodes = record { addr = "n0"; has_client = true; status = NodeStatus.idle } ∷ []

abbrev look : Look
look = record { now = 1000; reachable = λ addr. true; order = 0 ∷ []; meanwhile = λ others. others }

begin_single_node-lost_example :
    let (nodes', db', begun) =
      begin_single_node (look ∷ []) "first" 0 1000 lost_task two_rows nodes in
    (t' : StageTask) × (get_stage_task db' "first" ≡ some t')
    × (t'.status ≡ status_computing)
    × ((w : World) (later : Database)
        → begin_task Backend.prover_v2 codec example_env w t' later ≡ ok nothing)
begin_single_node-lost_example =
    begin_single_node-lost Backend.prover_v2 codec example_env (look ∷ []) nodes "first" 1000
      lost_task two_rows first 0 (record lost_task { state = 1 }) (single_node_request lost_task)
      "context" (record example_generate { single_node = true }) (unfold get_stage_task in refl)
      refl refl refl
      (unfold begin_single_node seek get_idle_client claim_on update_stage_task_check_at
          single_node_request in
        refl)
