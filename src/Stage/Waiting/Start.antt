-- ===== src/Stage/Waiting/Start.antt =====
-- The waiting starts with `gen_agg_tasks` (prover_v2), and `clear_all` brings it up to date.
use zkm_prover.Base.{
  ◌≤◌, ◌≡◌, refl, ap, ◌∙◌, String, Bool, true, false, not, ◌&&◌, ◌||◌, some, List, [], ◌∷◌, map,
  ◌==◌, str_eq, eq_iff, all, all-cons, all_mono, keep, length, arith,
}
use zkm_prover.Platform.{Bytes, Env, World, ok, read, join}
use zkm_prover.Tasks.{ProveTask, AggTask, AggregateInput, task_state_success}
use zkm_prover.Stage.{Stage, Backend}
use zkm_prover.Stage.MakeProve.{gen_prove_task_post}
use zkm_prover.Stage.Prove.{clear_agg_child_task}
use zkm_prover.Stage.Aggregate.{deferred, tree, mark_final}
use zkm_prover.Stage.Aggregate.Root.{planned, gen_agg_tasks-planned}
use zkm_prover.Stage.Dispatch.{prove_done, clear_all, successful_task_ids, plan}
use zkm_prover.Stage.Waiting.{proved, is_done, is_covered}
use zkm_prover.Stage.Waiting.Take.{all_inputs}
use zkm_prover.Stage.Waiting.Hand.{has_agg, is_linked, all_inputs_mono}
use zkm_prover.Stage.Waiting.Replies.{clear_children-IsWaiting, clear_children-IsLinked}
use zkm_prover.Stage.Waiting.Answers.{IsSound}
use zkm_prover.Stage.Waiting.Plan.{tree_covered}
use zkm_prover.Stage.Waiting.Links.{tree_linked}

covered-mark_final :
    (done : String → Bool) (ts : List AggTask)
    → all (is_covered done) (mark_final ts) ≡ all (is_covered done) ts
covered-mark_final done [] = refl
covered-mark_final done (t ∷ []) = refl
covered-mark_final done (t ∷ u ∷ ts) =
    ap (λ (b : Bool). is_covered done t && b) (covered-mark_final done (u ∷ ts))

all_inputs-mark_final :
    (p : AggregateInput → Bool) (ts : List AggTask) → all_inputs p (mark_final ts) ≡ all_inputs p ts
all_inputs-mark_final p [] = refl
all_inputs-mark_final p (t ∷ []) = refl
all_inputs-mark_final p (t ∷ u ∷ ts) =
    ap (λ (b : Bool). all p t.inputs && b) (all_inputs-mark_final p (u ∷ ts))

has_agg-mark_final : (id : String) (ts : List AggTask) → has_agg id (mark_final ts) ≡ has_agg id ts
has_agg-mark_final id [] = refl
has_agg-mark_final id (t ∷ []) = refl
has_agg-mark_final id (t ∷ u ∷ ts) =
    ap (λ (b : Bool). str_eq t.task_id id || b) (has_agg-mark_final id (u ∷ ts))

-- A deferred task is made with its proof.
abbrev pub is_settled_deferred : ProveTask → Bool
is_settled_deferred t = not t.is_deferred || t.state == task_state_success

deferred-proved :
    (ts : List ProveTask)
    → all is_settled_deferred ts ≡ true
    → all (λ t. proved t.task_id ts) (deferred ts) ≡ true
deferred-proved [] h = refl
deferred-proved (t ∷ ts) h =
    let (here, rest) = all-cons is_settled_deferred t ts h in
    let there : all (λ (u : ProveTask). proved u.task_id (t ∷ ts)) (deferred ts) ≡ true =
      all_mono (λ (u : ProveTask). proved u.task_id ts) _ (deferred ts) (λ u d. ground arith)
        (deferred-proved ts rest) in
    ground (arith, eq_iff t.task_id t.task_id)

planned-IsSound :
    (env : Env) (vk : Bytes) (w : World) (s : Stage)
    → all is_settled_deferred s.prove_tasks ≡ true
    → IsSound (planned env vk w s)
planned-IsSound env vk w s h =
    let proves : List ProveTask = s.prove_tasks in
    let ts : List AggTask = (tree env vk w proves).tasks in
    let done : String → Bool = is_done proves (mark_final ts) in
    let ended : all (λ (t : ProveTask). done t.task_id) (deferred proves) ≡ true =
      all_mono (λ (t : ProveTask). proved t.task_id proves) _ (deferred proves)
        (λ t d. ground arith) (deferred-proved proves h) in
    (
      covered-mark_final done ts ∙ tree_covered done env vk w proves ended,
      all_inputs_mono (is_linked ts proves) (is_linked (mark_final ts) proves) (mark_final ts)
          (λ i d. rw (has_agg-mark_final i.computed_request_id ts) d)
          (all_inputs-mark_final (is_linked ts proves) ts ∙ tree_linked env vk w proves),
    )

clear_agg_child_task-IsSound :
    (id : String) (s : Stage)
    → is_done s.prove_tasks s.agg_tasks id ≡ true
    → IsSound s
    → IsSound (clear_agg_child_task id s)
unfolding clear_agg_child_task
clear_agg_child_task-IsSound id s d (waiting, linked) = (
  clear_children-IsWaiting id s.prove_tasks s.agg_tasks d waiting,
  clear_children-IsLinked id s.prove_tasks s.agg_tasks linked,
)

clear_agg_child_task-proves :
    (id : String) (s : Stage) → (clear_agg_child_task id s).prove_tasks ≡ s.prove_tasks
unfolding clear_agg_child_task
clear_agg_child_task-proves id s = refl

clear_all-IsSound :
    (ids : List String) (s : Stage)
    → all (λ id. proved id s.prove_tasks) ids ≡ true
    → IsSound s
    → IsSound (clear_all ids s)
unfolding clear_all
clear_all-IsSound [] s h sound = sound
clear_all-IsSound (id ∷ ids) s h sound =
    let (here, there) = all-cons (λ id. proved id s.prove_tasks) id ids h in
    clear_all-IsSound ids (clear_agg_child_task id s) (rw (clear_agg_child_task-proves id s) there)
      (clear_agg_child_task-IsSound id s (rw here) sound)

done_ids_proved :
    (ts : List ProveTask)
    → all (λ id. proved id ts) (map (λ t. t.task_id) (keep prove_done ts)) ≡ true
done_ids_proved [] = refl
done_ids_proved (t ∷ ts) =
    let ids : List String = map (λ (t : ProveTask). t.task_id) (keep prove_done ts) in
    let there : all (λ (id : String). proved id (t ∷ ts)) ids ≡ true =
      all_mono (λ (id : String). proved id ts) _ ids (λ id d. ground arith) (done_ids_proved ts) in
    ground (arith, eq_iff t.task_id t.task_id)

-- Where the prove tasks are all there, some and the deferred ones with their proofs, where no
-- aggregation task is there yet, aggregation is asked for and vk.bin can be read, plan, the part
-- of dispatch that fixes the tasks (prover_v2), succeeds and leaves a stage in which every
-- aggregation task waits for what is not done and names tasks that exist.
pub plan-IsSound :
    (env : Env) (w w₁ : World) (s s₁ : Stage) (vk : Bytes)
    → gen_prove_task_post Backend.prover_v2 env w s ≡ ok (s₁, w₁)
    → s₁.generate_task.composite_proof ≡ false
    → s₁.agg_tasks ≡ []
    → 1 ≤ length s₁.prove_tasks
    → read w₁ (join s₁.generate_task.base_dir "vk.bin") ≡ some vk
    → all is_settled_deferred s₁.prove_tasks ≡ true
    → (s' : Stage) × (w' : World) × (plan Backend.prover_v2 env w s ≡ ok (s', w')) × IsSound s'
unfolding plan
plan-IsSound env w w₁ s s₁ vk made aggregates none_yet some_proof key h =
    let (w', e) = gen_agg_tasks-planned env w₁ s₁ {vk = vk} none_yet some_proof key in
    let s₂ : Stage = record (planned env vk w₁ s₁) { is_tasks_gen_done = true } in
    (
      clear_all (successful_task_ids s₂) s₂,
      w',
      rw (made, e, aggregates),
      clear_all-IsSound (successful_task_ids s₂) s₂ (done_ids_proved s₁.prove_tasks)
          (planned-IsSound env vk w₁ s₁ h),
    )
