-- ===== src/Stage/Aggregate/Shape.antt =====
-- How many tasks the tree of `gen_agg_tasks` has, and which of them are final.
use zkm_prover.Base.{
  ℕ, zero, suc, ◌+◌, ◌≤◌, ◌≡◌, refl, ap, ◌∙◌, Bool, true, false, Bool-cases, inl, inr, String, ◌&&◌,
  ◌==◌, List, [], ◌∷◌, ◌++◌, map, ltb, length, but_last, is_empty, &&-eq-true, ==_iff,
  length-append, arith, All, All-append,
}
use zkm_prover.Platform.{Bytes, Env, World, draw}
use zkm_prover.Tasks.{ProveTask, AggTask}
use zkm_prover.Tasks.Agg.{init_from_prove_tasks, init_from_agg_tasks}
use zkm_prover.Stage.Chunks.{chunks, length-chunks_one}
use zkm_prover.Stage.Aggregate.{
  leaves, singly, normal, deferred, first_layer, first_layer_batch_size, batch_size, next_layer,
  layers_above, tree, mark_final,
}
use zkm_prover.Stage.Aggregate.Tree.{consumed, length-leaves}

pub consumed-mark_final : (ts : List AggTask) → consumed (mark_final ts) ≡ consumed ts
consumed-mark_final [] = refl
consumed-mark_final (t ∷ []) = refl
consumed-mark_final (t ∷ u ∷ ts) =
    ap (λ (l : List String). map (λ i. i.computed_request_id) t.inputs ++ l)
      (consumed-mark_final (u ∷ ts))

pub but_last-mark_final : (ts : List AggTask) → but_last (mark_final ts) ≡ but_last ts
but_last-mark_final [] = refl
but_last-mark_final (t ∷ []) = refl
but_last-mark_final (t ∷ u ∷ []) = refl
but_last-mark_final (t ∷ u ∷ v ∷ ts) = ap (◌∷◌ t) (but_last-mark_final (u ∷ v ∷ ts))

length-singly : (ts : List ProveTask) → length (singly ts) ≡ length ts
length-singly [] = refl
length-singly (t ∷ ts) = ap suc (length-singly ts)

length-partition : (ts : List ProveTask) → length (normal ts) + length (deferred ts) ≡ length ts
length-partition [] = refl
length-partition (t ∷ ts) = ground (arith, length-partition ts)

-- One leaf for each prove task.
pub length-first_layer :
    (env : Env) (vk : Bytes) (w : World) (proves : List ProveTask)
    → length (first_layer env vk w proves).tasks ≡ length proves
unfolding first_layer
length-first_layer env vk w proves =
    rw (length-append, length-leaves, length-leaves, length-singly, length-chunks_one)
      (length-partition proves)

abbrev pub IsInner : AggTask → Type 0
IsInner t = t.is_final ≡ false

leaves-IsInner :
    (env : Env) (vk : Bytes) (d f : Bool) (w : World) (i : ℕ)
    (batches : List (ProveTask × List ProveTask))
    → All IsInner (leaves env vk false d f w i batches).tasks
unfolding leaves init_from_prove_tasks
leaves-IsInner env vk d f w i [] = tt
leaves-IsInner env vk d f w i (b ∷ batches) =
    (refl, leaves-IsInner env vk d false (draw w) (suc i) batches)

next_layer-IsInner :
    (env : Env) (w : World) (i : ℕ) (batches : List (AggTask × List AggTask))
    → All IsInner (next_layer env w i batches).tasks
unfolding next_layer init_from_agg_tasks
next_layer-IsInner env w i [] = tt
next_layer-IsInner env w i (b ∷ batches) = (refl, next_layer-IsInner env (draw w) (suc i) batches)

layers_above-IsInner :
    (fuel : ℕ) (env : Env) (w : World) (i : ℕ) (layer : List AggTask)
    → All IsInner (layers_above fuel env w i layer).tasks
unfolding layers_above
layers_above-IsInner zero env w i layer = tt
layers_above-IsInner (suc fuel) env w i layer =
    let made = next_layer env w i (chunks batch_size layer) in
    elim (Bool-cases (ltb 1 (length layer))) [
      | inl wide ↦ rw wide (
          All-append IsInner made.tasks _ (next_layer-IsInner env w i (chunks batch_size layer))
            (layers_above-IsInner fuel env made.world made.next_index made.tasks))
      | inr root ↦ rw root tt
    ]

abbrev is_alone : List ProveTask → Bool
is_alone proves = length (normal proves) == 1 && is_empty (deferred proves)

first_layer-IsInner :
    (env : Env) (vk : Bytes) (w : World) (proves : List ProveTask)
    → is_alone proves ≡ false
    → All IsInner (first_layer env vk w proves).tasks
unfolding first_layer
first_layer-IsInner env vk w proves h = rw h (
    All-append IsInner
      (leaves env vk false false true w 0 (chunks first_layer_batch_size (normal proves))).tasks _
      (leaves-IsInner env vk false true w 0 (chunks first_layer_batch_size (normal proves)))
      (leaves-IsInner env vk true false _ _ (singly (deferred proves))))

tree-IsInner :
    (env : Env) (vk : Bytes) (w : World) (proves : List ProveTask)
    → is_alone proves ≡ false
    → All IsInner (tree env vk w proves).tasks
unfolding tree
tree-IsInner env vk w proves h =
    let base = first_layer env vk w proves in
    All-append IsInner base.tasks _ (first_layer-IsInner env vk w proves h)
      (layers_above-IsInner (length base.tasks) env base.world base.next_index base.tasks)

layers_above_root :
    (fuel : ℕ) (env : Env) (w : World) (i : ℕ) (layer : List AggTask)
    → length layer ≡ 1
    → (layers_above fuel env w i layer).tasks ≡ []
unfolding layers_above
layers_above_root zero env w i layer h = refl
layers_above_root (suc fuel) env w i layer h = ground arith

length-empty {ℓ} : {A : Type ℓ} (xs : List A) → is_empty xs ≡ true → length xs ≡ 0
length-empty [] h = refl
length-empty (x ∷ xs) h = cc

is_alone-length : (proves : List ProveTask) → is_alone proves ≡ true → length proves ≡ 1
is_alone-length proves h =
    let (one, none_deferred) =
      &&-eq-true (length (normal proves) == 1) (is_empty (deferred proves)) h in
    omega (
      arith,
      length-partition proves,
      (==_iff (length (normal proves)) 1).0 one,
      length-empty (deferred proves) none_deferred,
    )

tree_alone :
    (env : Env) (vk : Bytes) (w : World) (proves : List ProveTask)
    → is_alone proves ≡ true
    → length (tree env vk w proves).tasks ≡ 1
unfolding tree
tree_alone env vk w proves h =
    let base = first_layer env vk w proves in
    let width : length base.tasks ≡ 1 =
      length-first_layer env vk w proves ∙ is_alone-length proves h in
    rw (layers_above_root (length base.tasks) env base.world base.next_index base.tasks width)
      (omega (arith, length-append base.tasks [], width))

All-but_last {ℓ κ} : {A : Type ℓ} (P : A → Type κ) (xs : List A) → All P xs → All P (but_last xs)
All-but_last P [] h = tt
All-but_last P (x ∷ []) h = tt
All-but_last P (x ∷ y ∷ xs) h = (h.0, All-but_last P (y ∷ xs) h.1)

All-but_last_one {ℓ κ} :
    {A : Type ℓ} (P : A → Type κ) (xs : List A) → length xs ≡ 1 → All P (but_last xs)
All-but_last_one P [] h = tt
All-but_last_one P (x ∷ []) h = tt
All-but_last_one P (x ∷ y ∷ xs) h = absurd (omega arith)

pub IsInner-tree :
    (env : Env) (vk : Bytes) (w : World) (proves : List ProveTask)
    → All IsInner (but_last (tree env vk w proves).tasks)
IsInner-tree env vk w proves = elim (Bool-cases (is_alone proves)) [
  | inl alone ↦ All-but_last_one IsInner _ (tree_alone env vk w proves alone)
  | inr more ↦ All-but_last IsInner _ (tree-IsInner env vk w proves more)
]

pub mark_final-root :
    (ts : List AggTask)
    → 1 ≤ length ts
    → (root : AggTask) × (mark_final ts ≡ but_last ts ++ root ∷ []) × (root.is_final ≡ true)
mark_final-root [] h = absurd (omega arith)
mark_final-root (t ∷ []) h = (record t { is_final = true }, refl, refl)
mark_final-root (t ∷ u ∷ ts) h =
    let (root, e, f) = mark_final-root (u ∷ ts) (omega arith) in (root, ap (◌∷◌ t) e, f)

pub length-tree :
    (env : Env) (vk : Bytes) (w : World) (proves : List ProveTask)
    → length proves ≤ length (tree env vk w proves).tasks
unfolding tree
length-tree env vk w proves =
    let base = first_layer env vk w proves in
    omega (
      arith,
      length-first_layer env vk w proves,
      length-append base.tasks
          (layers_above (length base.tasks) env base.world base.next_index base.tasks).tasks,
    )
