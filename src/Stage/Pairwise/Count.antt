-- ===== src/Stage/Pairwise/Count.antt =====
-- How many tasks the pairing of `gen_agg_tasks` makes.
use zkm_prover.Base.{
  ℕ, zero, suc, ◌+◌, ◌*◌, ◌/◌, ◌≤◌, ◌≡◌, refl, ap, List, [], ◌∷◌, length, length-append, arith,
}
use zkm_prover.Platform.{Env, World, draw, ok}
use zkm_prover.Tasks.{ProveTask, AggTask}
use zkm_prover.Stage.{Stage}
use zkm_prover.Stage.Pairwise.{
  Round, pair_proves, pair_aggs, rounds, pairing, mark_final, pair_up, gen_agg_tasks,
}

pub pair_proves-length :
    (env : Env) (w : World) (i : ℕ) (ts : List ProveTask)
    → let r = pair_proves env w i ts in
      (length r.pushed ≡ (length ts + 1) / 2) × (length r.layer ≡ (length ts + 1) / 2)
unfolding pair_proves
pair_proves-length env w i [] = (refl, refl)
pair_proves-length env w i (t ∷ []) = (refl, refl)
pair_proves-length env w i (l ∷ r ∷ ts) =
    let (p, q) = pair_proves-length env (draw w) (suc i) ts in (omega arith, omega arith)

pub pair_aggs-length :
    (env : Env) (w : World) (i : ℕ) (ts : List AggTask)
    → let r = pair_aggs env w i ts in
      (length r.pushed ≡ length ts / 2) × (length r.layer ≡ (length ts + 1) / 2)
unfolding pair_aggs
pair_aggs-length env w i [] = (refl, refl)
pair_aggs-length env w i (t ∷ []) = (refl, refl)
pair_aggs-length env w i (l ∷ r ∷ ts) =
    let (p, q) = pair_aggs-length env (draw w) (suc i) ts in (omega arith, omega arith)

-- A round over `n` tasks leaves one fewer pair to make for each pair it makes.
pub rounds-length :
    (fuel : ℕ) (env : Env) (w : World) (i : ℕ) (layer : List AggTask)
    → 1 ≤ length layer
    → length layer ≤ fuel
    → let r = rounds fuel env w i layer in
      (length r.pushed + 1 ≡ length layer) × (length r.layer ≡ 1)
unfolding rounds
rounds-length zero env w i layer h k = absurd (omega arith)
rounds-length (suc fuel) env w i [] h k = absurd (omega arith)
rounds-length (suc fuel) env w i (t ∷ []) h k = (refl, refl)
rounds-length (suc fuel) env w i (t ∷ u ∷ ts) h k =
    let layer : List AggTask = t ∷ u ∷ ts in
    let made : Round = pair_aggs env w i layer in
    let (p, q) = pair_aggs-length env w i layer in
    let (more, one) =
      rounds-length fuel env made.world made.index made.layer (omega arith) (omega arith) in
    (
      ground (
        arith,
        length-append made.pushed (rounds fuel env made.world made.index made.layer).pushed,
      ),
      ground arith,
    )

length-mark_final : (ts : List AggTask) → length (mark_final ts) ≡ length ts
length-mark_final [] = refl
length-mark_final (t ∷ []) = refl
length-mark_final (t ∷ u ∷ ts) = ap suc (length-mark_final (u ∷ ts))

pairing-length :
    (env : Env) (w : World) (t : ProveTask) (ts : List ProveTask)
    → length (pairing env w (t ∷ ts)).pushed + 1 ≡ 2 * ((length ts + 2) / 2)
unfolding pairing
pairing-length env w t ts =
    let base : Round = pair_proves env w 0 (t ∷ ts) in
    let (p, q) = pair_proves-length env w 0 (t ∷ ts) in
    let (more, one) =
      rounds-length (length base.layer) env base.world base.index base.layer (omega arith)
        (omega arith) in
    omega (
      arith,
      length-append base.pushed
          (rounds (length base.layer) env base.world base.index base.layer).pushed,
    )

pair_up_cases :
    (env : Env) (w : World) (s : Stage) (ts : List ProveTask)
    → s.agg_tasks ≡ []
    → 1 ≤ length ts
    → (s' : Stage) × (w' : World) × (pair_up env w s ts ≡ ok (s', w'))
      × (length s'.agg_tasks + 1 ≡ 2 * ((length ts + 1) / 2))
unfolding pair_up
pair_up_cases env w s [] none_yet h = absurd (omega arith)
pair_up_cases env w s (t ∷ ts) none_yet h =
    let made : Round = pairing env w (t ∷ ts) in
    (
      record s { agg_tasks = mark_final made.pushed },
      made.world,
      rw none_yet,
      omega (arith, length-mark_final made.pushed, pairing-length env w t ts),
    )

-- With a prove task at least and no aggregation task yet, gen_agg_tasks (prover) succeeds, and the
-- tasks are those of a binary tree over the pairs: 2 * ceil (n / 2) - 1.
pub gen_agg_tasks-length :
    (env : Env) (w : World) (s : Stage)
    → s.agg_tasks ≡ []
    → 1 ≤ length s.prove_tasks
    → (s' : Stage) × (w' : World) × (gen_agg_tasks env w s ≡ ok (s', w'))
      × (length s'.agg_tasks + 1 ≡ 2 * ((length s.prove_tasks + 1) / 2))
unfolding gen_agg_tasks
gen_agg_tasks-length env w s none_yet h = pair_up_cases env w s s.prove_tasks none_yet h
