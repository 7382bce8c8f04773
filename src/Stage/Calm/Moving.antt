-- ===== src/Stage/Calm/Moving.antt =====
-- The other steps of the stage are calm too, and so is `dispatch`.
use zkm_prover.Base.{
  ◌≡◌, refl, ap, String, ◌==◌, ◌||◌, Option, none, some, List, [], ◌∷◌, arith, Bool-cases, inl, inr,
}
use zkm_prover.Platform.{
  Env, World, assert, Ensures, Ensures->>=, Ensures-any, unwrap, read, join, expect_failed, write,
  assertion_failed,
}
use zkm_prover.Tasks.{
  SplitTask, ProveTask, AggTask, SnarkTask, task_state_success, task_state_initial,
}
use zkm_prover.Stage.{Stage, Backend}
use zkm_prover.Stage.Split.{gen_split_task, get_split_task, on_split_reply}
use zkm_prover.Stage.Prove.{clear_agg_child_task, on_prove_reply, count_processing_prove_tasks}
use zkm_prover.Stage.Prove.Replies.{on_prove_reply-count_le}
use zkm_prover.Stage.Agg.{
  gen_agg_tasks, get_agg_task, take_agg, fill_found, fill_inputs, on_agg_reply, write_agg_proof,
  answer_agg,
}
use zkm_prover.Stage.Pairwise as Pairwise
use zkm_prover.Stage.Aggregate as Aggregate
use zkm_prover.Stage.Snark.{gen_snark_task, get_snark_task, on_snark_reply, fill_receipt}
use zkm_prover.Stage.Dispatch.{clear_all}
use zkm_prover.Stage.Calm.{at_work, Calms, CalmsTo, Calms-refl, Calms-trans}

-- A step that keeps the context and the prove tasks is calm.
pub Calms-same :
    (s s' : Stage)
    → s'.generate_task ≡ s.generate_task
    → s'.prove_tasks ≡ s.prove_tasks
    → Calms s s'
Calms-same s s' g p = record {
  same_context = g;
  no_more = (let e : at_work s'.prove_tasks ≡ at_work s.prove_tasks = ap at_work p in omega arith);
}

pub gen_split_task-Calms :
    (env : Env) (w : World) (s : Stage) → Ensures (CalmsTo s) (gen_split_task env w s)
unfolding gen_split_task
gen_split_task-Calms env w s =
    Ensures->>= _ (assert (s.split_task.state == task_state_initial) assertion_failed) _
      (Ensures-any _) λ t h. Calms-same _ _ refl refl

pub get_split_task-Calms : (w : World) (s : Stage) → Calms s (get_split_task w s).0
unfolding get_split_task
get_split_task-Calms w s = Calms-same s (get_split_task w s).0 (ground arith) (ground arith)

pub on_split_reply-Calms :
    (w : World) (src : SplitTask) (s : Stage) → Calms s (on_split_reply w src s).0
unfolding on_split_reply
on_split_reply-Calms w src s = Calms-same s (on_split_reply w src s).0 refl refl

pub on_prove_reply-Calms :
    (w : World) (src : ProveTask) (s : Stage) → Calms s (on_prove_reply w src s).0
unfolding on_prove_reply count_processing_prove_tasks clear_agg_child_task
on_prove_reply-Calms w src s = record {
  same_context = ground arith;
  no_more = on_prove_reply-count_le w src s;
}

pair_up-Calms :
    (env : Env) (w : World) (s : Stage) (ts : List ProveTask)
    → Ensures (CalmsTo s) (Pairwise.pair_up env w s ts)
unfolding Pairwise.pair_up
pair_up-Calms env w s [] = tt
pair_up-Calms env w s (t ∷ ts) = Calms-same _ _ refl refl

pub gen_agg_tasks-Calms :
    (backend : Backend) (env : Env) (w : World) (s : Stage)
    → Ensures (CalmsTo s) (gen_agg_tasks backend env w s)
unfolding Pairwise.gen_agg_tasks Aggregate.gen_agg_tasks
gen_agg_tasks-Calms Backend.prover env w s = pair_up-Calms env w s s.prove_tasks
gen_agg_tasks-Calms Backend.prover_v2 env w s =
    Ensures->>= _ (unwrap (read w (join s.generate_task.base_dir "vk.bin")) expect_failed) _
      (Ensures-any _) λ vk h. Calms-same _ _ refl refl

pub clear_all-Calms : (ids : List String) (s : Stage) → Calms s (clear_all ids s)
unfolding clear_all clear_agg_child_task
clear_all-Calms [] s = Calms-refl s
clear_all-Calms (id ∷ ids) s =
    Calms-trans s (clear_agg_child_task id s) (clear_all ids (clear_agg_child_task id s))
      (Calms-same _ _ refl refl) (clear_all-Calms ids (clear_agg_child_task id s))

fill_found-Calms :
    (s s' : Stage) (found : Option AggTask)
    → Calms s s'
    → Ensures (λ (r : Stage × Option AggTask). Calms s r.0) (fill_found s' found)
unfolding fill_found
fill_found-Calms s s' none calm = calm
fill_found-Calms s s' (some t) calm =
    Ensures->>= _ (fill_inputs s'.agg_tasks s'.prove_tasks t.inputs) _ (Ensures-any _) λ is h. calm

pub get_agg_task-Calms :
    (w : World) (s : Stage)
    → Ensures (λ (r : Stage × Option AggTask). Calms s r.0) (get_agg_task w s)
unfolding get_agg_task
get_agg_task-Calms w s =
    fill_found-Calms s (record s { agg_tasks = (take_agg w s.agg_tasks).0 })
      (take_agg w s.agg_tasks).1 (Calms-same _ _ refl refl)

pub on_agg_reply-Calms :
    (w : World) (src : AggTask) (s : Stage)
    → Ensures (λ (r : Stage × AggTask × World). Calms s r.0) (on_agg_reply w src s)
unfolding on_agg_reply
on_agg_reply-Calms w src s =
    let (src', tasks, fails) = answer_agg w.now src s.agg_tasks in
    let s' : Stage = record s { agg_tasks = tasks; is_error = fails || s.is_error } in
    elim (Bool-cases (src'.state == task_state_success)) [
      | inl success ↦ rw success (
          Ensures->>= _ (write_agg_proof w s' src') _ (Ensures-any _)
            λ w' h. Calms-same _ _ refl refl)
      | inr other ↦ rw other (Calms-same _ _ refl refl)
    ]

pub gen_snark_task-Calms :
    (env : Env) (w : World) (s : Stage) → Ensures (CalmsTo s) (gen_snark_task env w s)
unfolding gen_snark_task
gen_snark_task-Calms env w s =
    Ensures->>= _ (assert (s.snark_task.state == task_state_initial) assertion_failed) _
      (Ensures-any _)
      λ t h.
        Ensures->>= _ (fill_receipt s.generate_task.from_step env w s _) _ (Ensures-any _)
          λ t k. Calms-same _ _ refl refl

pub get_snark_task-Calms : (w : World) (s : Stage) → Calms s (get_snark_task w s).0
unfolding get_snark_task
get_snark_task-Calms w s = Calms-same s (get_snark_task w s).0 (ground arith) (ground arith)

pub on_snark_reply-Calms :
    (w : World) (src : SnarkTask) (s : Stage)
    → Ensures (λ (r : Stage × SnarkTask × World). Calms s r.0) (on_snark_reply w src s)
unfolding on_snark_reply
on_snark_reply-Calms w src s =
    Ensures->>= _ (write w s.generate_task.snark_path src.output) _ (Ensures-any _)
      λ w' h. Calms-same _ _ refl refl
