-- ===== src/Stage/Waiting/Links.antt =====
-- The inputs of the tasks that `gen_agg_tasks` (prover_v2) makes name tasks of the stage.
use zkm_prover.Base.{
  ℕ, zero, suc, ◌≡◌, refl, Bool, true, false, not, ◌&&◌, List, [], ◌∷◌, ◌++◌, map, ◌==◌, eq_iff,
  ltb, all, all_mono, all-append, append-all, all-keep, length, arith, Bool-cases, inl, inr,
  is_empty,
}
use zkm_prover.Platform.{Bytes, Env, World, draw}
use zkm_prover.Tasks.{ProveTask, AggTask}
use zkm_prover.Tasks.Agg.{from_prove_task, to_agg_input, init_from_prove_tasks, init_from_agg_tasks}
use zkm_prover.Stage.Chunks.{chunks, slices, slices-chunks}
use zkm_prover.Stage.Aggregate.{
  Made, leaves, singly, normal, deferred, first_layer, first_layer_batch_size, batch_size,
  next_layer, layers_above, tree,
}
use zkm_prover.Stage.Aggregate.Tree.{slices-singly}
use zkm_prover.Stage.Waiting.Take.{all_inputs}
use zkm_prover.Stage.Waiting.Hand.{has_prove, has_agg, is_linked}
use zkm_prover.Stage.Waiting.Plain.{is_plain, layers_above_plain, first_layer_plain}

-- A task of the list that is not a prove task in disguise.
abbrev pub is_member : List AggTask → AggTask → Bool
is_member aggs t = has_agg t.task_id aggs && not t.from_prove

linked_proves :
    (aggs : List AggTask) (proves ts : List ProveTask)
    → all (λ t. has_prove t.task_id proves) ts ≡ true
    → all (is_linked aggs proves) (map from_prove_task ts) ≡ true
unfolding from_prove_task
linked_proves aggs proves [] h = refl
linked_proves aggs proves (t ∷ ts) h = ground (arith, linked_proves aggs proves ts)

linked_aggs :
    (aggs : List AggTask) (proves : List ProveTask) (ts : List AggTask)
    → all (is_member aggs) ts ≡ true
    → all (is_linked aggs proves) (map to_agg_input ts) ≡ true
unfolding to_agg_input
linked_aggs aggs proves [] h = refl
linked_aggs aggs proves (t ∷ ts) h = ground (arith, linked_aggs aggs proves ts)

leaves_linked :
    (aggs : List AggTask) (proves : List ProveTask) (env : Env) (vk : Bytes) (c d f : Bool)
    (w : World) (i : ℕ) (batches : List (ProveTask × List ProveTask))
    → all (λ t. has_prove t.task_id proves) (slices batches) ≡ true
    → all_inputs (is_linked aggs proves) (leaves env vk c d f w i batches).tasks ≡ true
unfolding leaves init_from_prove_tasks
leaves_linked aggs proves env vk c d f w i [] h = refl
leaves_linked aggs proves env vk c d f w i ((t, ts) ∷ batches) h =
    let (front, back) =
      append-all (λ (t : ProveTask). has_prove t.task_id proves) (t ∷ ts) (slices batches) h in
    ground (
      arith,
      linked_proves aggs proves (t ∷ ts) front,
      leaves_linked aggs proves env vk c d false (draw w) (suc i) batches back,
    )

next_layer_linked :
    (aggs : List AggTask) (proves : List ProveTask) (env : Env) (w : World) (i : ℕ)
    (batches : List (AggTask × List AggTask))
    → all (is_member aggs) (slices batches) ≡ true
    → all_inputs (is_linked aggs proves) (next_layer env w i batches).tasks ≡ true
unfolding next_layer init_from_agg_tasks
next_layer_linked aggs proves env w i [] h = refl
next_layer_linked aggs proves env w i ((t, ts) ∷ batches) h =
    let (front, back) = append-all (is_member aggs) (t ∷ ts) (slices batches) h in
    ground (
      arith,
      linked_aggs aggs proves (t ∷ ts) front,
      next_layer_linked aggs proves env (draw w) (suc i) batches back,
    )

layers_above_linked :
    (fuel : ℕ) (aggs : List AggTask) (proves : List ProveTask) (env : Env) (w : World) (i : ℕ)
    (layer : List AggTask)
    → all (is_member aggs) layer ≡ true
    → all (is_member aggs) (layers_above fuel env w i layer).tasks ≡ true
    → all_inputs (is_linked aggs proves) (layers_above fuel env w i layer).tasks ≡ true
unfolding layers_above
layers_above_linked zero aggs proves env w i layer h k = refl
layers_above_linked (suc fuel) aggs proves env w i layer h k =
    let made : Made = next_layer env w i (chunks batch_size layer) in
    let above : Made = layers_above fuel env made.world made.next_index made.tasks in
    elim (Bool-cases (ltb 1 (length layer))) [
      | inl more ↦
          let (k₁, k₂) = append-all (is_member aggs) made.tasks above.tasks (rw more at k) in
          rw more (
            all-append (λ (t : AggTask). all (is_linked aggs proves) t.inputs) made.tasks
              above.tasks
              (next_layer_linked aggs proves env w i (chunks batch_size layer)
                (rw (slices-chunks batch_size layer) h))
              (layers_above_linked fuel aggs proves env made.world made.next_index made.tasks k₁
                k₂))
      | inr one ↦ rw one
    ]

-- Every list has the ids of its own tasks.
has_agg_self : (ts : List AggTask) → all (λ t. has_agg t.task_id ts) ts ≡ true
has_agg_self [] = refl
has_agg_self (t ∷ ts) =
    let there : all (λ (u : AggTask). has_agg u.task_id (t ∷ ts)) ts ≡ true =
      all_mono (λ (u : AggTask). has_agg u.task_id ts) _ ts (λ u h. ground arith)
        (has_agg_self ts) in
    ground (arith, eq_iff t.task_id t.task_id)

has_prove_self : (ts : List ProveTask) → all (λ t. has_prove t.task_id ts) ts ≡ true
has_prove_self [] = refl
has_prove_self (t ∷ ts) =
    let there : all (λ (u : ProveTask). has_prove u.task_id (t ∷ ts)) ts ≡ true =
      all_mono (λ (u : ProveTask). has_prove u.task_id ts) _ ts (λ u h. ground arith)
        (has_prove_self ts) in
    ground (arith, eq_iff t.task_id t.task_id)

all-both :
    (p q : AggTask → Bool) (ts : List AggTask)
    → all p ts ≡ true
    → all q ts ≡ true
    → all (λ t. p t && q t) ts ≡ true
all-both p q [] h k = refl
all-both p q (t ∷ ts) h k = ground (arith, all-both p q ts)

first_layer_linked :
    (aggs : List AggTask) (env : Env) (vk : Bytes) (w : World) (proves : List ProveTask)
    → all_inputs (is_linked aggs proves) (first_layer env vk w proves).tasks ≡ true
unfolding first_layer
first_layer_linked aggs env vk w proves =
    let p : ProveTask → Bool = λ t. has_prove t.task_id proves in
    let c : Bool = length (normal proves) == 1 && is_empty (deferred proves) in
    let batches : List (ProveTask × List ProveTask) =
      chunks first_layer_batch_size (normal proves) in
    let front : Made = leaves env vk c false true w 0 batches in
    let back : Made =
      leaves env vk c true false front.world front.next_index (singly (deferred proves)) in
    all-append (λ (t : AggTask). all (is_linked aggs proves) t.inputs) front.tasks back.tasks
      (leaves_linked aggs proves env vk c false true w 0 batches (
        rw (slices-chunks first_layer_batch_size (normal proves))
          (all-keep p _ proves (has_prove_self proves))))
      (leaves_linked aggs proves env vk c true false front.world front.next_index
        (singly (deferred proves))
        (rw (slices-singly (deferred proves)) (all-keep p _ proves (has_prove_self proves))))

pub tree_linked :
    (env : Env) (vk : Bytes) (w : World) (proves : List ProveTask)
    → all_inputs (is_linked (tree env vk w proves).tasks proves) (tree env vk w proves).tasks ≡ true
unfolding tree
tree_linked env vk w proves =
    let base : Made = first_layer env vk w proves in
    let above : Made = layers_above (length base.tasks) env base.world base.next_index base.tasks in
    let aggs : List AggTask = base.tasks ++ above.tasks in
    let plain : all is_plain aggs ≡ true =
      all-append is_plain base.tasks above.tasks (first_layer_plain env vk w proves)
        (layers_above_plain (length base.tasks) env base.world base.next_index base.tasks) in
    let (h, k) = append-all (is_member aggs) base.tasks above.tasks (
      all-both (λ (t : AggTask). has_agg t.task_id aggs) is_plain aggs (has_agg_self aggs) plain) in
    all-append (λ (t : AggTask). all (is_linked aggs proves) t.inputs) base.tasks above.tasks
      (first_layer_linked aggs env vk w proves)
      (layers_above_linked (length base.tasks) aggs proves env base.world base.next_index base.tasks
        h k)
