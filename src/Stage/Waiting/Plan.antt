-- ===== src/Stage/Waiting/Plan.antt =====
-- `gen_agg_tasks` (prover_v2) starts the waiting: each task that it makes is told whom to wait for.
use zkm_prover.Base.{
  ℕ, zero, suc, ◌≡◌, refl, sym, String, Bool, true, false, ◌&&◌, ◌||◌, Option, some, List, [], ◌∷◌,
  map, ◌==◌, eq_iff, ltb, all, all_mono, all-append, length, arith, Bool-cases, inl, inr, is_empty,
}
use zkm_prover.Platform.{Bytes, Env, World, draw}
use zkm_prover.Tasks.{ProveTask, AggTask, AggregateInput}
use zkm_prover.Tasks.Agg.{from_prove_task, to_agg_input, init_from_prove_tasks, init_from_agg_tasks}
use zkm_prover.Tasks.Agg.Clear.{awaits}
use zkm_prover.Stage.Chunks.{chunks}
use zkm_prover.Stage.Aggregate.{
  Made, leaves, singly, normal, deferred, first_layer, first_layer_batch_size, batch_size,
  next_layer, layers_above, tree,
}
use zkm_prover.Stage.Waiting.{is_covered}

awaits-some :
    (id other : String) (childs : List (Option String))
    → other ≡ id
    → awaits (some id ∷ childs) other ≡ true
awaits-some id other childs e = ground (arith, eq_iff id other, sym e)

-- Every input of a task is named, where the childs are named as the inputs are.
covered_named {ℓ} :
    {T : Type ℓ} (id_of : T → String) (input_of : T → AggregateInput) (done : String → Bool)
    (ts : List T)
    → ((t : T) → (input_of t).computed_request_id ≡ id_of t)
    → all
        (λ i.
          awaits (map (λ t. some (id_of t)) ts) i.computed_request_id || done i.computed_request_id)
        (map input_of ts)
      ≡ true
covered_named id_of input_of done [] same = refl
covered_named id_of input_of done (t ∷ ts) same =
    let childs : List (Option String) = map (λ t. some (id_of t)) ts in
    let here : awaits (some (id_of t) ∷ childs) (input_of t).computed_request_id ≡ true =
      awaits-some (id_of t) (input_of t).computed_request_id childs (same t) in
    let there : all
          (λ (i : AggregateInput).
            awaits (some (id_of t) ∷ childs) i.computed_request_id || done i.computed_request_id)
          (map input_of ts)
        ≡ true =
      all_mono
        (λ (i : AggregateInput). awaits childs i.computed_request_id || done i.computed_request_id)
        _ (map input_of ts) (λ i h. ground arith) (covered_named id_of input_of done ts same) in
    ground (arith, here, there)

leaves_covered :
    (done : String → Bool) (env : Env) (vk : Bytes) (c f : Bool) (w : World) (i : ℕ)
    (batches : List (ProveTask × List ProveTask))
    → all (is_covered done) (leaves env vk c false f w i batches).tasks ≡ true
unfolding leaves init_from_prove_tasks from_prove_task
leaves_covered done env vk c f w i [] = refl
leaves_covered done env vk c f w i ((t, ts) ∷ batches) = ground (
  arith,
  covered_named (λ (t : ProveTask). t.task_id) from_prove_task done (t ∷ ts) (λ t. refl),
  leaves_covered done env vk c false (draw w) (suc i) batches,
)

-- A deferred proof is waited for by nobody: it has to be done.
deferred_leaves_covered :
    (done : String → Bool) (env : Env) (vk : Bytes) (c f : Bool) (w : World) (i : ℕ)
    (ts : List ProveTask)
    → all (λ t. done t.task_id) ts ≡ true
    → all (is_covered done) (leaves env vk c true f w i (singly ts)).tasks ≡ true
unfolding leaves init_from_prove_tasks from_prove_task
deferred_leaves_covered done env vk c f w i [] h = refl
deferred_leaves_covered done env vk c f w i (t ∷ ts) h =
    ground (arith, deferred_leaves_covered done env vk c false (draw w) (suc i) ts)

next_layer_covered :
    (done : String → Bool) (env : Env) (w : World) (i : ℕ) (batches : List (AggTask × List AggTask))
    → all (is_covered done) (next_layer env w i batches).tasks ≡ true
unfolding next_layer init_from_agg_tasks to_agg_input
next_layer_covered done env w i [] = refl
next_layer_covered done env w i ((t, ts) ∷ batches) = ground (
  arith,
  covered_named (λ (t : AggTask). t.task_id) to_agg_input done (t ∷ ts) (λ t. refl),
  next_layer_covered done env (draw w) (suc i) batches,
)

layers_above_covered :
    (fuel : ℕ) (done : String → Bool) (env : Env) (w : World) (i : ℕ) (layer : List AggTask)
    → all (is_covered done) (layers_above fuel env w i layer).tasks ≡ true
unfolding layers_above
layers_above_covered zero done env w i layer = refl
layers_above_covered (suc fuel) done env w i layer =
    let made : Made = next_layer env w i (chunks batch_size layer) in
    let above : Made = layers_above fuel env made.world made.next_index made.tasks in
    elim (Bool-cases (ltb 1 (length layer))) [
      | inl more ↦ rw more (
          all-append (is_covered done) made.tasks above.tasks
            (next_layer_covered done env w i (chunks batch_size layer))
            (layers_above_covered fuel done env made.world made.next_index made.tasks))
      | inr one ↦ rw one
    ]

pub tree_covered :
    (done : String → Bool) (env : Env) (vk : Bytes) (w : World) (proves : List ProveTask)
    → all (λ t. done t.task_id) (deferred proves) ≡ true
    → all (is_covered done) (tree env vk w proves).tasks ≡ true
unfolding tree first_layer
tree_covered done env vk w proves h =
    let base : Made = first_layer env vk w proves in
    let c : Bool = length (normal proves) == 1 && is_empty (deferred proves) in
    let front : Made =
      leaves env vk c false true w 0 (chunks first_layer_batch_size (normal proves)) in
    let back : Made =
      leaves env vk c true false front.world front.next_index (singly (deferred proves)) in
    all-append (is_covered done) base.tasks _
      (all-append (is_covered done) front.tasks back.tasks
        (leaves_covered done env vk c true w 0 (chunks first_layer_batch_size (normal proves)))
        (deferred_leaves_covered done env vk c false front.world front.next_index (deferred proves)
          h))
      (layers_above_covered (length base.tasks) done env base.world base.next_index base.tasks)
