-- ===== src/Stage/Waiting/Plain.antt =====
-- `gen_agg_tasks` (prover_v2) makes no prove task in disguise.
use zkm_prover.Base.{
  ℕ, zero, suc, ◌≡◌, refl, Bool, true, false, not, ◌&&◌, List, [], ◌∷◌, ◌==◌, ltb, all, all-append,
  length, Bool-cases, inl, inr, is_empty,
}
use zkm_prover.Platform.{Bytes, Env, World, draw}
use zkm_prover.Tasks.{ProveTask, AggTask}
use zkm_prover.Tasks.Agg.{init_from_prove_tasks, init_from_agg_tasks}
use zkm_prover.Stage.Chunks.{chunks}
use zkm_prover.Stage.Aggregate.{
  Made, leaves, singly, normal, deferred, first_layer, first_layer_batch_size, batch_size,
  next_layer, layers_above,
}

abbrev pub is_plain : AggTask → Bool
is_plain t = not t.from_prove

leaves_plain :
    (env : Env) (vk : Bytes) (c d f : Bool) (w : World) (i : ℕ)
    (batches : List (ProveTask × List ProveTask))
    → all is_plain (leaves env vk c d f w i batches).tasks ≡ true
unfolding leaves init_from_prove_tasks
leaves_plain env vk c d f w i [] = refl
leaves_plain env vk c d f w i ((t, ts) ∷ batches) =
    leaves_plain env vk c d false (draw w) (suc i) batches

next_layer_plain :
    (env : Env) (w : World) (i : ℕ) (batches : List (AggTask × List AggTask))
    → all is_plain (next_layer env w i batches).tasks ≡ true
unfolding next_layer init_from_agg_tasks
next_layer_plain env w i [] = refl
next_layer_plain env w i ((t, ts) ∷ batches) = next_layer_plain env (draw w) (suc i) batches

pub layers_above_plain :
    (fuel : ℕ) (env : Env) (w : World) (i : ℕ) (layer : List AggTask)
    → all is_plain (layers_above fuel env w i layer).tasks ≡ true
unfolding layers_above
layers_above_plain zero env w i layer = refl
layers_above_plain (suc fuel) env w i layer =
    let made : Made = next_layer env w i (chunks batch_size layer) in
    let above : Made = layers_above fuel env made.world made.next_index made.tasks in
    elim (Bool-cases (ltb 1 (length layer))) [
      | inl more ↦ rw more (
          all-append is_plain made.tasks above.tasks
            (next_layer_plain env w i (chunks batch_size layer))
            (layers_above_plain fuel env made.world made.next_index made.tasks))
      | inr one ↦ rw one
    ]

pub first_layer_plain :
    (env : Env) (vk : Bytes) (w : World) (proves : List ProveTask)
    → all is_plain (first_layer env vk w proves).tasks ≡ true
unfolding first_layer
first_layer_plain env vk w proves =
    let c : Bool = length (normal proves) == 1 && is_empty (deferred proves) in
    let batches : List (ProveTask × List ProveTask) =
      chunks first_layer_batch_size (normal proves) in
    let front : Made = leaves env vk c false true w 0 batches in
    let back : Made =
      leaves env vk c true false front.world front.next_index (singly (deferred proves)) in
    all-append is_plain front.tasks back.tasks (leaves_plain env vk c false true w 0 batches)
      (leaves_plain env vk c true false front.world front.next_index (singly (deferred proves)))
