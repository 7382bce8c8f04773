-- ===== src/Stage/Pairwise/Conserve.antt =====
-- Who aggregates whom in the pairing: ids are counted, since an odd task out changes their order.
use zkm_prover.Base.{
  ℕ, zero, suc, ◌+◌, ◌≡◌, refl, List, [], ◌∷◌, ◌++◌, length, ltb, arith, String, str_eq, count_if,
  count_if-append, if◌then◌else◌, Bool-cases, inl, inr,
}
use zkm_prover.Platform.{Env, World, draw}
use zkm_prover.Tasks.{ProveTask, AggTask}
use zkm_prover.Tasks.Agg.{
  init_from_single_prove_task, init_from_two_prove_task, init_from_two_agg_task,
}
use zkm_prover.Stage.Aggregate.Tree.{prove_ids, agg_ids, requests, consumed}
use zkm_prover.Stage.Pairwise.{Round, pair_proves, pair_aggs, rounds}

-- How often an id stands in a list.
abbrev pub times : String → List String → ℕ
times id = count_if λ other. str_eq other id

-- The ids of the tasks that aggregate something.
abbrev pub own_ids : List AggTask → List String
own_ids [] = []
own_ids (t ∷ ts) = let rest = own_ids ts in if t.from_prove then rest else t.task_id ∷ rest

pub times-consumed-append :
    (id : String) (xs ys : List AggTask)
    → times id (consumed (xs ++ ys)) ≡ times id (consumed xs) + times id (consumed ys)
times-consumed-append id [] ys = omega arith
times-consumed-append id (x ∷ xs) ys = omega (
  arith,
  times-consumed-append id xs ys,
  count_if-append (λ other. str_eq other id) (requests x.inputs) (consumed (xs ++ ys)),
  count_if-append (λ other. str_eq other id) (requests x.inputs) (consumed xs),
)

pub times-own_ids-append :
    (id : String) (xs ys : List AggTask)
    → times id (own_ids (xs ++ ys)) ≡ times id (own_ids xs) + times id (own_ids ys)
times-own_ids-append id [] ys = omega arith
times-own_ids-append id (x ∷ xs) ys = ground (arith, times-own_ids-append id xs ys)

pub pair_proves_conserves :
    (id : String) (env : Env) (w : World) (i : ℕ) (ts : List ProveTask)
    → let r = pair_proves env w i ts in
      times id (prove_ids ts) + times id (own_ids r.pushed)
      ≡ times id (consumed r.pushed) + times id (agg_ids r.layer)
unfolding pair_proves init_from_single_prove_task init_from_two_prove_task
pair_proves_conserves id env w i [] = refl
pair_proves_conserves id env w i (t ∷ []) = omega arith
pair_proves_conserves id env w i (l ∷ r ∷ ts) =
    omega (arith, pair_proves_conserves id env (draw w) (suc i) ts)

pair_aggs_conserves :
    (id : String) (env : Env) (w : World) (i : ℕ) (ts : List AggTask)
    → let r = pair_aggs env w i ts in
      times id (agg_ids ts) + times id (own_ids r.pushed)
      ≡ times id (consumed r.pushed) + times id (agg_ids r.layer)
unfolding pair_aggs init_from_two_agg_task
pair_aggs_conserves id env w i [] = refl
pair_aggs_conserves id env w i (t ∷ []) = omega arith
pair_aggs_conserves id env w i (l ∷ r ∷ ts) =
    omega (arith, pair_aggs_conserves id env (draw w) (suc i) ts)

pub rounds_conserve :
    (id : String) (fuel : ℕ) (env : Env) (w : World) (i : ℕ) (layer : List AggTask)
    → let r = rounds fuel env w i layer in
      times id (agg_ids layer) + times id (own_ids r.pushed)
      ≡ times id (consumed r.pushed) + times id (agg_ids r.layer)
unfolding rounds
rounds_conserve id zero env w i layer = omega arith
rounds_conserve id (suc fuel) env w i layer =
    let made : Round = pair_aggs env w i layer in
    let rest : Round = rounds fuel env made.world made.index made.layer in
    elim (Bool-cases (ltb 1 (length layer))) [
      | inl wide ↦ rw wide (
          omega (
            arith,
            pair_aggs_conserves id env w i layer,
            rounds_conserve id fuel env made.world made.index made.layer,
            times-own_ids-append id made.pushed rest.pushed,
            times-consumed-append id made.pushed rest.pushed,
          ))
      | inr root ↦ rw root (omega arith)
    ]
