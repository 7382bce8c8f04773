-- ===== src/Stage/Pairwise/Root.antt =====
-- The last task of the pairing is its root, and the only one that nothing aggregates.
use zkm_prover.Base.{
  ℕ, zero, suc, ◌+◌, ◌≤◌, ◌≡◌, refl, List, [], ◌∷◌, ◌++◌, length, arith, String, Option, none, some,
  true, ap, ◌∙◌,
}
use zkm_prover.Platform.{Env, World, ok}
use zkm_prover.Tasks.{ProveTask, AggTask}
use zkm_prover.Stage.{Stage}
use zkm_prover.Stage.Aggregate.Tree.{prove_ids, agg_ids, requests, consumed}
use zkm_prover.Stage.Pairwise.{
  Round, pair_proves, pair_aggs, rounds, pairing, mark_final, pair_up, gen_agg_tasks,
}
use zkm_prover.Stage.Pairwise.Count.{pair_proves-length, pair_aggs-length, rounds-length}
use zkm_prover.Stage.Pairwise.Conserve.{
  times, own_ids, times-consumed-append, times-own_ids-append, pair_proves_conserves,
  rounds_conserve,
}

abbrev pub last? {ℓ} : {A : Type ℓ} → List A → Option A
last? [] = none
last? (x ∷ []) = some x
last? (x ∷ y ∷ xs) = last? (y ∷ xs)

last?-append {ℓ} : {A : Type ℓ} (xs ys : List A) → 1 ≤ length ys → last? (xs ++ ys) ≡ last? ys
last?-append [] ys h = refl
last?-append (x ∷ []) [] h = absurd (omega arith)
last?-append (x ∷ []) (y ∷ ys) h = refl
last?-append (x ∷ z ∷ xs) ys h = last?-append (z ∷ xs) ys h

rounds_wide :
    (fuel : ℕ) (env : Env) (w : World) (i : ℕ) (layer : List AggTask)
    → 2 ≤ length layer
    → let made = pair_aggs env w i layer in
      let rest = rounds fuel env made.world made.index made.layer in
      ((rounds (suc fuel) env w i layer).layer ≡ rest.layer)
      × ((rounds (suc fuel) env w i layer).pushed ≡ made.pushed ++ rest.pushed)
unfolding rounds
rounds_wide fuel env w i layer h = (ground arith, ground arith)

-- What is left in the end, if more than one task was there, is what was pushed last.
rounds-last :
    (fuel : ℕ) (env : Env) (w : World) (i : ℕ) (layer : List AggTask)
    → 2 ≤ length layer
    → length layer ≤ fuel
    → let r = rounds fuel env w i layer in
      (root : AggTask) × (r.layer ≡ root ∷ []) × (last? r.pushed ≡ some root)
rounds-last zero env w i layer h k = absurd (omega arith)
rounds-last (suc fuel) env w i [] h k = absurd (omega arith)
rounds-last (suc fuel) env w i (t ∷ []) h k = absurd (omega arith)
rounds-last (suc zero) env w i (t ∷ u ∷ []) h k = absurd (omega arith)
rounds-last (suc (suc fuel)) env w i (t ∷ u ∷ []) h k = unfold rounds pair_aggs in (_, refl, refl)
rounds-last (suc fuel) env w i (t ∷ u ∷ v ∷ ts) h k =
    let layer : List AggTask = t ∷ u ∷ v ∷ ts in
    let made : Round = pair_aggs env w i layer in
    let rest : Round = rounds fuel env made.world made.index made.layer in
    let (p, q) = pair_aggs-length env w i layer in
    let (more, one) =
      rounds-length fuel env made.world made.index made.layer (omega arith) (omega arith) in
    let (root, e, f) =
      rounds-last fuel env made.world made.index made.layer (omega arith) (omega arith) in
    let (same, pushed) = rounds_wide fuel env w i layer (omega arith) in
    (root, same ∙ e, ap last? pushed ∙ last?-append made.pushed rest.pushed (omega arith) ∙ f)

pairing-last :
    (env : Env) (w : World) (ts : List ProveTask)
    → 1 ≤ length ts
    → let r = pairing env w ts in
      (root : AggTask) × (r.layer ≡ root ∷ []) × (last? r.pushed ≡ some root)
unfolding pairing pair_proves rounds
pairing-last env w [] h = absurd (omega arith)
pairing-last env w (t ∷ []) h = (_, refl, refl)
pairing-last env w (t ∷ u ∷ []) h = (_, refl, refl)
pairing-last env w (t ∷ u ∷ v ∷ ts) h =
    let base : Round = pair_proves env w 0 (t ∷ u ∷ v ∷ ts) in
    let rest : Round = rounds (length base.layer) env base.world base.index base.layer in
    let (p, q) = pair_proves-length env w 0 (t ∷ u ∷ v ∷ ts) in
    let (more, one) =
      rounds-length (length base.layer) env base.world base.index base.layer (omega arith)
        (omega arith) in
    let (root, e, f) =
      rounds-last (length base.layer) env base.world base.index base.layer (omega arith)
        (omega arith) in
    (root, e, last?-append base.pushed rest.pushed (omega arith) ∙ f)

pairing_conserves :
    (id : String) (env : Env) (w : World) (ts : List ProveTask)
    → let r = pairing env w ts in
      times id (prove_ids ts) + times id (own_ids r.pushed)
      ≡ times id (consumed r.pushed) + times id (agg_ids r.layer)
unfolding pairing
pairing_conserves id env w ts =
    let base : Round = pair_proves env w 0 ts in
    let rest : Round = rounds (length base.layer) env base.world base.index base.layer in
    omega (
      arith,
      pair_proves_conserves id env w 0 ts,
      rounds_conserve id (length base.layer) env base.world base.index base.layer,
      times-own_ids-append id base.pushed rest.pushed,
      times-consumed-append id base.pushed rest.pushed,
    )

own_ids-mark_final : (ts : List AggTask) → own_ids (mark_final ts) ≡ own_ids ts
own_ids-mark_final [] = refl
own_ids-mark_final (t ∷ []) = refl
own_ids-mark_final (t ∷ u ∷ ts) = ground (arith, own_ids-mark_final (u ∷ ts))

consumed-mark_final : (ts : List AggTask) → consumed (mark_final ts) ≡ consumed ts
consumed-mark_final [] = refl
consumed-mark_final (t ∷ []) = refl
consumed-mark_final (t ∷ u ∷ ts) =
    ap (λ (l : List String). requests t.inputs ++ l) (consumed-mark_final (u ∷ ts))

last?-mark_final :
    (ts : List AggTask) (root : AggTask)
    → last? ts ≡ some root
    → last? (mark_final ts) ≡ some (record root { is_final = true })
last?-mark_final [] root e = cc
last?-mark_final (t ∷ []) root e = ground arith
last?-mark_final (t ∷ u ∷ []) root e = ground arith
last?-mark_final (t ∷ u ∷ v ∷ ts) root e = last?-mark_final (u ∷ v ∷ ts) root e

-- Each id is asked for as often as it stands among the prove tasks and the aggregating tasks, but
-- for one time less at the last task, which is the final one.
abbrev pub IsBalanced : String → List ProveTask → List AggTask → AggTask → Type 0
IsBalanced id proves tasks root =
    times id (prove_ids proves) + times id (own_ids tasks)
    ≡ times id (consumed tasks) + times id (root.task_id ∷ [])

pair_up-IsBalanced :
    (id : String) (env : Env) (w : World) (s : Stage) (ts : List ProveTask)
    → s.agg_tasks ≡ []
    → 1 ≤ length ts
    → (s' : Stage) × (w' : World) × (root : AggTask) × (pair_up env w s ts ≡ ok (s', w'))
      × (last? s'.agg_tasks ≡ some root)
      × (root.is_final ≡ true)
      × IsBalanced id ts s'.agg_tasks root
unfolding pair_up
pair_up-IsBalanced id env w s [] none_yet h = absurd (omega arith)
pair_up-IsBalanced id env w s (t ∷ ts) none_yet h =
    let made : Round = pairing env w (t ∷ ts) in
    let (root, e, f) = pairing-last env w (t ∷ ts) (omega arith) in
    (
      record s { agg_tasks = mark_final made.pushed },
      made.world,
      record root { is_final = true },
      rw none_yet,
      last?-mark_final made.pushed root f,
      refl,
      let marked : IsBalanced id (t ∷ ts) (mark_final made.pushed) root =
            rw (own_ids-mark_final made.pushed, consumed-mark_final made.pushed)
              (pairing_conserves id env w (t ∷ ts)
                ∙ ap (λ (l : List AggTask). times id (consumed made.pushed) + times id (agg_ids l))
                    e) in
          marked,
    )

-- With a prove task at least and no aggregation task yet, gen_agg_tasks (prover) succeeds, its
-- last task is final, and every id is asked for as an input as often as it stands among the prove
-- tasks and the tasks made for a pair, but for one time less at the last task.
pub gen_agg_tasks-IsBalanced :
    (id : String) (env : Env) (w : World) (s : Stage)
    → s.agg_tasks ≡ []
    → 1 ≤ length s.prove_tasks
    → (s' : Stage) × (w' : World) × (root : AggTask) × (gen_agg_tasks env w s ≡ ok (s', w'))
      × (last? s'.agg_tasks ≡ some root)
      × (root.is_final ≡ true)
      × IsBalanced id s.prove_tasks s'.agg_tasks root
unfolding gen_agg_tasks
gen_agg_tasks-IsBalanced id env w s none_yet h =
    pair_up-IsBalanced id env w s s.prove_tasks none_yet h
