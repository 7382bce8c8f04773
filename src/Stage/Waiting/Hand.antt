-- ===== src/Stage/Waiting/Hand.antt =====
-- What `get_agg_task` hands out: a task whose inputs are all done.
use zkm_prover.Base.{
  ◌≡◌, refl, ◌∙◌, inl, inr, sym, String, Bool, true, Option, none, some, List, [], ◌∷◌, str_eq,
  if◌then◌else◌, any, all, all-cons, all_mono, find, Bool-cases, arith,
}
use zkm_prover.Platform.{World, ok}
use zkm_prover.Tasks.{ProveTask, AggTask, AggregateInput, task_state_processing}
use zkm_prover.Stage.{Stage}
use zkm_prover.Stage.Agg.{take_agg, fill_input, fill_inputs, fill_found, get_agg_task}
use zkm_prover.Stage.Waiting.{is_done, IsWaiting, inputs_done, all_covered_mono}
use zkm_prover.Stage.Waiting.Take.{
  aggregated-take_agg, covered-take_agg, take_agg-found, all_inputs, take_agg-found_inputs,
}

-- Each input names a task of its kind in the stage.
abbrev pub has_prove : String → List ProveTask → Bool
has_prove id = any λ t. str_eq t.task_id id

abbrev pub has_agg : String → List AggTask → Bool
has_agg id = any λ t. str_eq t.task_id id

abbrev pub is_linked : List AggTask → List ProveTask → AggregateInput → Bool
is_linked aggs proves i =
    if i.is_agg then has_agg i.computed_request_id aggs else has_prove i.computed_request_id proves

abbrev pub IsLinked : List ProveTask → List AggTask → Type 0
IsLinked proves aggs = all (λ t. all (is_linked aggs proves) t.inputs) aggs ≡ true

find-some {ℓ} :
    {A : Type ℓ} (p : A → Bool) (xs : List A) → any p xs ≡ true → (x : A) × (find p xs ≡ some x)
find-some p [] h = cc
find-some p (x ∷ xs) h = elim (Bool-cases (p x)) [
  | inl hit ↦ (x, rw hit)
  | inr miss ↦ let (y, e) = find-some p xs (rw miss at h) in (y, rw miss e)
]

fill_input_linked :
    (aggs : List AggTask) (proves : List ProveTask) (i : AggregateInput)
    → is_linked aggs proves i ≡ true
    → (i' : AggregateInput) × (fill_input aggs proves i ≡ ok i')
      × (i'.computed_request_id ≡ i.computed_request_id)
unfolding fill_input
fill_input_linked aggs proves i h = elim (Bool-cases i.is_agg) [
  | inl agg ↦
      let (t, e) = find-some (λ x. str_eq x.task_id i.computed_request_id) aggs (rw agg at h) in
      (record i { receipt_input = t.output }, rw (agg, e), refl)
  | inr prove ↦
      let (t, e) = find-some (λ x. str_eq x.task_id i.computed_request_id) proves (rw prove at h) in
      (record i { receipt_input = t.output }, rw (prove, e), refl)
]

fill_inputs_linked :
    (done : String → Bool) (aggs : List AggTask) (proves : List ProveTask)
    (is : List AggregateInput)
    → all (is_linked aggs proves) is ≡ true
    → all (λ i. done i.computed_request_id) is ≡ true
    → (is' : List AggregateInput) × (fill_inputs aggs proves is ≡ ok is')
      × (all (λ i. done i.computed_request_id) is' ≡ true)
unfolding fill_inputs
fill_inputs_linked done aggs proves [] h k = ([], refl, refl)
fill_inputs_linked done aggs proves (i ∷ is) h k =
    let (linked, links) = all-cons (is_linked aggs proves) i is h in
    let (ended, ends) = all-cons (λ (j : AggregateInput). done j.computed_request_id) i is k in
    let (i', e, same) = fill_input_linked aggs proves i linked in
    let (is', f, dones) = fill_inputs_linked done aggs proves is links ends in
    (i' ∷ is', rw (e, f), rw (same, ended) dones)

has_agg-take_agg :
    (w : World) (id : String) (ts : List AggTask) → has_agg id (take_agg w ts).0 ≡ has_agg id ts
unfolding take_agg
has_agg-take_agg w id [] = refl
has_agg-take_agg w id (t ∷ ts) = ground (arith, has_agg-take_agg w id ts)

-- The outcome of `get_agg_task`: nothing, or a task that is processed from now on and whose inputs
-- are all done.
abbrev pub IsSafe : Stage → Option AggTask → Type 0
IsSafe s none = Unit {0}
IsSafe s (some t) =
    (t.state ≡ task_state_processing)
    × (all (λ i. is_done s.prove_tasks s.agg_tasks i.computed_request_id) t.inputs ≡ true)

pub all_inputs_mono :
    (p q : AggregateInput → Bool) (ts : List AggTask)
    → ((i : AggregateInput) → p i ≡ true → q i ≡ true)
    → all_inputs p ts ≡ true
    → all_inputs q ts ≡ true
all_inputs_mono p q ts h =
    all_mono (λ (t : AggTask). all p t.inputs) (λ t. all q t.inputs) ts
      (λ t. all_mono p q t.inputs h)

all_inputs-take_agg :
    (w : World) (p : AggregateInput → Bool) (ts : List AggTask)
    → all_inputs p (take_agg w ts).0 ≡ all_inputs p ts
unfolding take_agg
all_inputs-take_agg w p [] = refl
all_inputs-take_agg w p (t ∷ ts) = ground (arith, all_inputs-take_agg w p ts)

take_agg-IsWaiting :
    (w : World) (proves : List ProveTask) (ts : List AggTask)
    → IsWaiting proves ts
    → IsWaiting proves (take_agg w ts).0
take_agg-IsWaiting w proves ts h =
    all_covered_mono (is_done proves ts) (is_done proves (take_agg w ts).0) (take_agg w ts).0
      (λ id d. rw (aggregated-take_agg w id ts) d) (covered-take_agg w (is_done proves ts) ts ∙ h)

take_agg-IsLinked :
    (w : World) (proves : List ProveTask) (ts : List AggTask)
    → IsLinked proves ts
    → IsLinked proves (take_agg w ts).0
take_agg-IsLinked w proves ts h =
    all_inputs_mono (is_linked ts proves) (is_linked (take_agg w ts).0 proves) (take_agg w ts).0
      (λ i d. rw (has_agg-take_agg w i.computed_request_id ts) d)
      (all_inputs-take_agg w (is_linked ts proves) ts ∙ h)

fill_found-IsSafe :
    (s : Stage) (found : Option AggTask)
    → ((t : AggTask)
        → found ≡ some t
        → (t.state ≡ task_state_processing)
          × (all (λ i. is_done s.prove_tasks s.agg_tasks i.computed_request_id) t.inputs ≡ true)
          × (all (is_linked s.agg_tasks s.prove_tasks) t.inputs ≡ true))
    → (found' : Option AggTask) × (fill_found s found ≡ ok (s, found')) × IsSafe s found'
unfolding fill_found
fill_found-IsSafe s none h = (none, refl, tt)
fill_found-IsSafe s (some t) h =
    let (going, ended, linked) = h t refl in
    let (is, e, ends) =
      fill_inputs_linked (is_done s.prove_tasks s.agg_tasks) s.agg_tasks s.prove_tasks t.inputs
        linked ended in
    (some (record t { inputs = is }), rw e, (going, ends))

module _ (w : World) (s : Stage) (waiting : IsWaiting s.prove_tasks s.agg_tasks)
    (linked : IsLinked s.prove_tasks s.agg_tasks) where
  after_take : Stage
  after_take = record s { agg_tasks = (take_agg w s.agg_tasks).0 }

  found_inputs :
      (t : AggTask)
      → (take_agg w s.agg_tasks).1 ≡ some t
      → all (is_linked (take_agg w s.agg_tasks).0 s.prove_tasks) t.inputs ≡ true
  found_inputs t e =
      take_agg-found_inputs w (is_linked (take_agg w s.agg_tasks).0 s.prove_tasks) s.agg_tasks t e (
        sym (all_inputs-take_agg w (is_linked (take_agg w s.agg_tasks).0 s.prove_tasks) s.agg_tasks)
        ∙ take_agg-IsLinked w s.prove_tasks s.agg_tasks linked)

  -- In a stage whose tasks wait for what is not done and name tasks that exist, get_agg_task
  -- succeeds, keeps both, and hands out either nothing or a task that is processed from now on and
  -- each of whose inputs is the id of a task that has succeeded.
  pub get_agg_task-IsSafe :
      (s' : Stage) × (found : Option AggTask) × (get_agg_task w s ≡ ok (s', found))
      × IsSafe s' found
      × IsWaiting s'.prove_tasks s'.agg_tasks
      × IsLinked s'.prove_tasks s'.agg_tasks
  unfolding get_agg_task after_take
  get_agg_task-IsSafe =
      let waiting' = take_agg-IsWaiting w s.prove_tasks s.agg_tasks waiting in
      let (found, e, safe) = fill_found-IsSafe after_take (take_agg w s.agg_tasks).1 (λ t e.
        let done = is_done s.prove_tasks (take_agg w s.agg_tasks).0 in
        let (going, free, covered) =
          take_agg-found w done s.agg_tasks t e
            (sym (covered-take_agg w done s.agg_tasks) ∙ waiting') in
        (going, inputs_done done t free covered, found_inputs t e)) in
      (after_take, found, e, safe, waiting', take_agg-IsLinked w s.prove_tasks s.agg_tasks linked)
