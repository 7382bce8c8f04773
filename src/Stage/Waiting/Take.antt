-- ===== src/Stage/Waiting/Take.antt =====
-- What `take_agg`, the loop of `get_agg_task`, finds.
use zkm_prover.Base.{
  ◌≡◌, refl, ◌∙◌, inl, inr, sym, String, Bool, true, false, some, List, [], ◌∷◌, all, all-cons,
  Bool-cases, some_injective, subst, arith,
}
use zkm_prover.Platform.{World}
use zkm_prover.Tasks.{AggTask, AggregateInput, task_state_processing}
use zkm_prover.Tasks.Progress.{is_open}
use zkm_prover.Stage.Agg.{waits, take_agg}
use zkm_prover.Stage.Waiting.{aggregated, is_covered}

pub aggregated-take_agg :
    (w : World) (id : String) (ts : List AggTask)
    → aggregated id (take_agg w ts).0 ≡ aggregated id ts
unfolding take_agg
aggregated-take_agg w id [] = refl
aggregated-take_agg w id (t ∷ ts) = ground (arith, aggregated-take_agg w id ts)

pub covered-take_agg :
    (w : World) (done : String → Bool) (ts : List AggTask)
    → all (is_covered done) (take_agg w ts).0 ≡ all (is_covered done) ts
unfolding take_agg
covered-take_agg w done [] = refl
covered-take_agg w done (t ∷ ts) = ground (arith, covered-take_agg w done ts)

take_agg_busy :
    (w : World) (u : AggTask) (ts : List AggTask)
    → waits u ≡ true
    → (take_agg w (u ∷ ts)).1 ≡ (take_agg w ts).1
unfolding take_agg
take_agg_busy w u ts busy = rw busy

take_agg_closed :
    (w : World) (u : AggTask) (ts : List AggTask)
    → waits u ≡ false
    → is_open u.state ≡ false
    → (take_agg w (u ∷ ts)).1 ≡ (take_agg w ts).1
unfolding take_agg
take_agg_closed w u ts free closed = rw (free, closed)

abbrev handed : World → AggTask → AggTask
handed w t = record t { state = task_state_processing; trace = record t.trace { start_ts = w.now } }

take_agg_ready :
    (w : World) (u : AggTask) (ts : List AggTask)
    → waits u ≡ false
    → is_open u.state ≡ true
    → (take_agg w (u ∷ ts)).1 ≡ some (handed w u)
unfolding take_agg
take_agg_ready w u ts free ready = rw (free, ready)

-- The task that is found is processed from now on, waits for nobody and is covered.
pub take_agg-found :
    (w : World) (done : String → Bool) (ts : List AggTask) (t : AggTask)
    → (take_agg w ts).1 ≡ some t
    → all (is_covered done) ts ≡ true
    → (t.state ≡ task_state_processing) × (waits t ≡ false) × (is_covered done t ≡ true)
take_agg-found w done [] t e h = unfold take_agg in cc
take_agg-found w done (u ∷ ts) t e h = elim (Bool-cases (waits u)) [
  | inl busy ↦ take_agg-found w done ts t (sym (take_agg_busy w u ts busy) ∙ e) h'
  | inr free ↦ elim (Bool-cases (is_open u.state)) [
    | inl ready ↦
        subst
          (λ x. (x.state ≡ task_state_processing) × (waits x ≡ false) × (is_covered done x ≡ true))
          (some_injective (sym (take_agg_ready w u ts free ready) ∙ e)) (refl, free, here)
    | inr closed ↦ take_agg-found w done ts t (sym (take_agg_closed w u ts free closed) ∙ e) h'
  ]
]
  where
    here : is_covered done u ≡ true
    here = (all-cons (is_covered done) u ts h).0

    h' : all (is_covered done) ts ≡ true
    h' = (all-cons (is_covered done) u ts h).1

-- Every input of every task satisfies `p`.
abbrev pub all_inputs : (AggregateInput → Bool) → List AggTask → Bool
all_inputs p = all λ t. all p t.inputs

pub take_agg-found_inputs :
    (w : World) (p : AggregateInput → Bool) (ts : List AggTask) (t : AggTask)
    → (take_agg w ts).1 ≡ some t
    → all_inputs p ts ≡ true
    → all p t.inputs ≡ true
take_agg-found_inputs w p [] t e h = unfold take_agg in cc
take_agg-found_inputs w p (u ∷ ts) t e h = elim (Bool-cases (waits u)) [
  | inl busy ↦ take_agg-found_inputs w p ts t (sym (take_agg_busy w u ts busy) ∙ e) rest
  | inr free ↦ elim (Bool-cases (is_open u.state)) [
    | inl ready ↦
        subst (λ (x : AggTask). all p x.inputs ≡ true)
          (some_injective (sym (take_agg_ready w u ts free ready) ∙ e))
          (all-cons (λ (x : AggTask). all p x.inputs) u ts h).0
    | inr closed ↦
        take_agg-found_inputs w p ts t (sym (take_agg_closed w u ts free closed) ∙ e) rest
  ]
]
  where
    rest : all_inputs p ts ≡ true
    rest = (all-cons (λ (x : AggTask). all p x.inputs) u ts h).1
