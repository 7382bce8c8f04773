-- ===== src/Stage/Aggregate/Tree.antt =====
-- What the tree of `gen_agg_tasks` looks like: who aggregates whom.
use zkm_prover.Base.{
  ℕ, zero, suc, ◌+◌, ◌/◌, ◌≤◌, ◌≡◌, refl, sym, ap, ap₂, ◌∙◌, Bool, false, String, List, [], ◌∷◌,
  ◌++◌, map, map-append, append_assoc, length, but_last, length-append, arith,
}
use zkm_prover.Platform.{Bytes, Env, World, draw}
use zkm_prover.Tasks.{ProveTask, AggTask, AggregateInput}
use zkm_prover.Tasks.Agg.{from_prove_task, to_agg_input, init_from_prove_tasks, init_from_agg_tasks}
use zkm_prover.Stage.Chunks.{chunks, slices, slices-chunks, length-chunks_two}
use zkm_prover.Stage.Aggregate.{
  Made, leaves, singly, normal, deferred, first_layer, batch_size, next_layer, layers_above, tree,
}

abbrev pub prove_ids : List ProveTask → List String
prove_ids = map λ t. t.task_id

abbrev pub agg_ids : List AggTask → List String
agg_ids = map λ t. t.task_id

abbrev pub requests : List AggregateInput → List String
requests = map λ i. i.computed_request_id

-- The ids that a list of aggregation tasks asks for, in order.
abbrev pub consumed : List AggTask → List String
consumed [] = []
consumed (t ∷ ts) = requests t.inputs ++ consumed ts

consumed-append : (xs ys : List AggTask) → consumed (xs ++ ys) ≡ consumed xs ++ consumed ys
consumed-append [] ys = refl
consumed-append (x ∷ xs) ys =
    ap (◌++◌ (requests x.inputs)) (consumed-append xs ys)
    ∙ sym (append_assoc (requests x.inputs) (consumed xs) (consumed ys))

requests-from_prove_task : (ts : List ProveTask) → requests (map from_prove_task ts) ≡ prove_ids ts
unfolding from_prove_task
requests-from_prove_task [] = refl
requests-from_prove_task (t ∷ ts) = ap (◌∷◌ t.task_id) (requests-from_prove_task ts)

requests-to_agg_input : (ts : List AggTask) → requests (map to_agg_input ts) ≡ agg_ids ts
unfolding to_agg_input
requests-to_agg_input [] = refl
requests-to_agg_input (t ∷ ts) = ap (◌∷◌ t.task_id) (requests-to_agg_input ts)

consumed-leaves :
    (env : Env) (vk : Bytes) (c d f : Bool) (w : World) (i : ℕ)
    (batches : List (ProveTask × List ProveTask))
    → consumed (leaves env vk c d f w i batches).tasks ≡ prove_ids (slices batches)
unfolding leaves init_from_prove_tasks
consumed-leaves env vk c d f w i [] = refl
consumed-leaves env vk c d f w i ((t, ts) ∷ batches) =
    rw (requests-from_prove_task ts, consumed-leaves env vk c d false (draw w) (suc i) batches)
      (ap (◌∷◌ t.task_id) (sym (map-append (λ (p : ProveTask). p.task_id) ts (slices batches))))

pub slices-singly : (ts : List ProveTask) → slices (singly ts) ≡ ts
slices-singly [] = refl
slices-singly (t ∷ ts) = ap (◌∷◌ t) (slices-singly ts)

-- The leaves consume the normal tasks and then the deferred ones.
consumed-first_layer :
    (env : Env) (vk : Bytes) (w : World) (proves : List ProveTask)
    → consumed (first_layer env vk w proves).tasks ≡ prove_ids (normal proves ++ deferred proves)
unfolding first_layer
consumed-first_layer env vk w proves =
    rw (consumed-append, consumed-leaves, consumed-leaves, slices-chunks, slices-singly)
      (sym (map-append (λ (p : ProveTask). p.task_id) (normal proves) (deferred proves)))

consumed-next_layer :
    (env : Env) (w : World) (i : ℕ) (batches : List (AggTask × List AggTask))
    → consumed (next_layer env w i batches).tasks ≡ agg_ids (slices batches)
unfolding next_layer init_from_agg_tasks
consumed-next_layer env w i [] = refl
consumed-next_layer env w i ((t, ts) ∷ batches) =
    rw (requests-to_agg_input ts, consumed-next_layer env (draw w) (suc i) batches)
      (ap (◌∷◌ t.task_id) (sym (map-append (λ (p : AggTask). p.task_id) ts (slices batches))))

length-next_layer :
    (env : Env) (w : World) (i : ℕ) (batches : List (AggTask × List AggTask))
    → length (next_layer env w i batches).tasks ≡ length batches
unfolding next_layer
length-next_layer env w i [] = refl
length-next_layer env w i (b ∷ batches) = ap suc (length-next_layer env (draw w) (suc i) batches)

but_last-append {ℓ} :
    {A : Type ℓ} (xs ys : List A) → 1 ≤ length ys → but_last (xs ++ ys) ≡ xs ++ but_last ys
but_last-append [] ys h = refl
but_last-append (x ∷ []) [] h = absurd (omega arith)
but_last-append (x ∷ []) (y ∷ ys) h = refl
but_last-append (x ∷ z ∷ xs) ys h = ap (◌∷◌ x) (but_last-append (z ∷ xs) ys h)

layers_above_wide :
    (fuel : ℕ) (env : Env) (w : World) (i : ℕ) (layer : List AggTask)
    → 2 ≤ length layer
    → let made = next_layer env w i (chunks batch_size layer) in
      (layers_above (suc fuel) env w i layer).tasks
      ≡ made.tasks ++ (layers_above fuel env made.world made.next_index made.tasks).tasks
unfolding layers_above
layers_above_wide fuel env w i layer h = ground arith

length-next_two :
    (env : Env) (w : World) (i : ℕ) (layer : List AggTask)
    → length (next_layer env w i (chunks batch_size layer)).tasks ≡ (length layer + 1) / 2
length-next_two env w i layer =
    length-next_layer env w i (chunks batch_size layer) ∙ length-chunks_two layer

consumed-next_two :
    (env : Env) (w : World) (i : ℕ) (layer : List AggTask)
    → consumed (next_layer env w i (chunks batch_size layer)).tasks ≡ agg_ids layer
consumed-next_two env w i layer =
    consumed-next_layer env w i (chunks batch_size layer)
    ∙ ap agg_ids (slices-chunks batch_size layer)

-- With fuel for its width, what is built above a layer consumes that layer and all of itself but
-- the root.
consumed-layers_above :
    (fuel : ℕ) (env : Env) (w : World) (i : ℕ) (layer : List AggTask)
    → 1 ≤ length layer
    → length layer ≤ fuel
    → let above = (layers_above fuel env w i layer).tasks in
      consumed above ≡ agg_ids (but_last (layer ++ above))
consumed-layers_above zero env w i layer h k = absurd (omega arith)
consumed-layers_above (suc fuel) env w i [] h k = absurd (omega arith)
consumed-layers_above (suc fuel) env w i (t ∷ []) h k = unfold layers_above in refl
consumed-layers_above (suc fuel) env w i (t ∷ u ∷ ts) h k =
    let layer : List AggTask = t ∷ u ∷ ts in
    let made : Made = next_layer env w i (chunks batch_size layer) in
    let above : List AggTask =
      (layers_above fuel env made.world made.next_index made.tasks).tasks in
    let width : length made.tasks ≡ (length layer + 1) / 2 = length-next_two env w i layer in
    let rest : consumed above ≡ agg_ids (but_last (made.tasks ++ above)) =
      consumed-layers_above fuel env made.world made.next_index made.tasks (omega arith)
        (omega arith) in
    rw (layers_above_wide fuel env w i layer (omega arith)) (
      consumed-append made.tasks above
      ∙ ap₂ ◌++◌ (consumed-next_two env w i layer) rest
      ∙ sym (map-append (λ (p : AggTask). p.task_id) layer (but_last (made.tasks ++ above)))
      ∙ ap agg_ids (
          sym (
            but_last-append layer (made.tasks ++ above)
              (omega (arith, length-append made.tasks above)))))

pub length-leaves :
    (env : Env) (vk : Bytes) (c d f : Bool) (w : World) (i : ℕ)
    (batches : List (ProveTask × List ProveTask))
    → length (leaves env vk c d f w i batches).tasks ≡ length batches
unfolding leaves
length-leaves env vk c d f w i [] = refl
length-leaves env vk c d f w i (b ∷ batches) =
    ap suc (length-leaves env vk c d false (draw w) (suc i) batches)

-- Every prove task is consumed once, the normal ones first, and then every aggregation task but the
-- last, in the order made.
pub consumed-tree :
    (env : Env) (vk : Bytes) (w : World) (proves : List ProveTask)
    → 1 ≤ length (first_layer env vk w proves).tasks
    → let tasks = (tree env vk w proves).tasks in
      consumed tasks ≡ prove_ids (normal proves ++ deferred proves) ++ agg_ids (but_last tasks)
unfolding tree
consumed-tree env vk w proves h =
    let base : Made = first_layer env vk w proves in
    let above : List AggTask =
      (layers_above (length base.tasks) env base.world base.next_index base.tasks).tasks in
    consumed-append base.tasks above
    ∙ ap₂ ◌++◌ (consumed-first_layer env vk w proves) (
        consumed-layers_above (length base.tasks) env base.world base.next_index base.tasks h
          (omega arith))
