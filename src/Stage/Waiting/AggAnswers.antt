-- ===== src/Stage/Waiting/AggAnswers.antt =====
-- `on_agg_task` keeps every task waiting for what is not done.
use zkm_prover.Base.{
  ℕ, ◌≡◌, refl, ◌∙◌, inl, inr, String, Bool, true, ◌&&◌, ◌||◌, List, [], ◌∷◌, ◌==◌, str_eq,
  if◌then◌else◌, any, all, Bool-cases, arith,
}
use zkm_prover.Platform.{World, ok, written}
use zkm_prover.Tasks.{ProveTask, AggTask, AggregateInput, task_state_processing, task_state_success}
use zkm_prover.Stage.{Stage}
use zkm_prover.Stage.Prove.{clear_children}
use zkm_prover.Stage.Agg.{answer_agg, on_agg_reply, write_agg_proof, is_agg_step}
use zkm_prover.Stage.Waiting.{aggregated, is_done, is_covered, IsWaiting, all_covered_mono}
use zkm_prover.Stage.Waiting.Take.{all_inputs}
use zkm_prover.Stage.Waiting.Hand.{has_agg, is_linked, IsLinked, all_inputs_mono}
use zkm_prover.Stage.Waiting.Replies.{clear_children-IsWaiting, clear_children-IsLinked}
use zkm_prover.Stage.Waiting.Answers.{IsSound}

-- A reply meets an aggregation task under its id that is being processed.
abbrev pub meets_agg : AggTask → AggTask → Bool
meets_agg src t = str_eq t.task_id src.task_id && t.state == task_state_processing

aggregated-answer_agg :
    (now : ℕ) (src : AggTask) (id : String) (ts : List AggTask)
    → aggregated id ts ≡ true
    → aggregated id (answer_agg now src ts).1 ≡ true
unfolding answer_agg
aggregated-answer_agg now src id [] h = cc
aggregated-answer_agg now src id (t ∷ ts) h = ground (arith, aggregated-answer_agg now src id ts)

aggregated-answer_agg_met :
    (now : ℕ) (src : AggTask) (ts : List AggTask)
    → any (meets_agg src) ts ≡ true
    → src.state ≡ task_state_success
    → aggregated src.task_id (answer_agg now src ts).1 ≡ true
unfolding answer_agg
aggregated-answer_agg_met now src [] h k = cc
aggregated-answer_agg_met now src (t ∷ ts) h k =
    ground (arith, aggregated-answer_agg_met now src ts)

has_agg-answer_agg :
    (now : ℕ) (src : AggTask) (id : String) (ts : List AggTask)
    → has_agg id (answer_agg now src ts).1 ≡ has_agg id ts
unfolding answer_agg
has_agg-answer_agg now src id [] = refl
has_agg-answer_agg now src id (t ∷ ts) = ground (arith, has_agg-answer_agg now src id ts)

covered-answer_agg :
    (now : ℕ) (src : AggTask) (done : String → Bool) (ts : List AggTask)
    → all (is_covered done) (answer_agg now src ts).1 ≡ all (is_covered done) ts
unfolding answer_agg
covered-answer_agg now src done [] = refl
covered-answer_agg now src done (t ∷ ts) = ground (arith, covered-answer_agg now src done ts)

all_inputs-answer_agg :
    (now : ℕ) (src : AggTask) (p : AggregateInput → Bool) (ts : List AggTask)
    → all_inputs p (answer_agg now src ts).1 ≡ all_inputs p ts
unfolding answer_agg
all_inputs-answer_agg now src p [] = refl
all_inputs-answer_agg now src p (t ∷ ts) = ground (arith, all_inputs-answer_agg now src p ts)

answer_agg-src :
    (now : ℕ) (src : AggTask) (ts : List AggTask)
    → let src' = (answer_agg now src ts).0 in
      (src'.state ≡ src.state) × (src'.task_id ≡ src.task_id)
unfolding answer_agg
answer_agg-src now src [] = (refl, refl)
answer_agg-src now src (t ∷ ts) = ground (arith, answer_agg-src now src ts)

answer_agg-IsWaiting :
    (now : ℕ) (src : AggTask) (proves : List ProveTask) (aggs : List AggTask)
    → IsWaiting proves aggs
    → IsWaiting proves (answer_agg now src aggs).1
answer_agg-IsWaiting now src proves aggs h =
    all_covered_mono (is_done proves aggs) (is_done proves (answer_agg now src aggs).1)
      (answer_agg now src aggs).1 (λ id d. ground (arith, aggregated-answer_agg now src id aggs))
      (covered-answer_agg now src (is_done proves aggs) aggs ∙ h)

answer_agg-IsLinked :
    (now : ℕ) (src : AggTask) (proves : List ProveTask) (aggs : List AggTask)
    → IsLinked proves aggs
    → IsLinked proves (answer_agg now src aggs).1
answer_agg-IsLinked now src proves aggs h =
    all_inputs_mono (is_linked aggs proves) (is_linked (answer_agg now src aggs).1 proves)
      (answer_agg now src aggs).1
      (λ i d. rw (has_agg-answer_agg now src i.computed_request_id aggs) d)
      (all_inputs-answer_agg now src (is_linked aggs proves) aggs ∙ h)

-- The stage after a reply.
abbrev pub agg_answered : World → AggTask → Stage → Stage
agg_answered w src s =
    let (src', tasks, fails) = answer_agg w.now src s.agg_tasks in
    record s {
      agg_tasks =
          if src.state == task_state_success then clear_children src.task_id tasks else tasks;
      is_error = fails || s.is_error;
    }

write_agg_proof-ok :
    (w : World) (s : Stage) (src : AggTask)
    → w.writable s.generate_task.snark_path ≡ true
    → (w' : World) × (write_agg_proof w s src ≡ ok w')
unfolding write_agg_proof
write_agg_proof-ok w s src can_write =
    elim (Bool-cases (src.is_final && is_agg_step s.generate_task.target_step)) [
      | inl final ↦ (written w s.generate_task.snark_path src.output, rw (final, can_write))
      | inr kept ↦ (w, rw kept)
    ]

pub on_agg_reply-ok :
    (w : World) (src : AggTask) (s : Stage)
    → w.writable s.generate_task.snark_path ≡ true
    → (src' : AggTask) × (w' : World) × (on_agg_reply w src s ≡ ok (agg_answered w src s, src', w'))
unfolding on_agg_reply
on_agg_reply-ok w src s can_write =
    let (src', tasks, fails) = answer_agg w.now src s.agg_tasks in
    let s' : Stage = record s { agg_tasks = tasks; is_error = fails || s.is_error } in
    let (same_state, same_id) = answer_agg-src w.now src s.agg_tasks in
    elim (Bool-cases (src.state == task_state_success)) [
      | inl success ↦
          let (w', e) = write_agg_proof-ok w s' src' can_write in
          (src', w', rw (same_state, success, e, same_id))
      | inr other ↦ (src', w, rw (same_state, other))
    ]

-- A reply to an aggregation task keeps the same, under the same condition on successful replies,
-- and does not panic where the proof's file can be written.
pub on_agg_reply-IsSound :
    (w : World) (src : AggTask) (s : Stage)
    → w.writable s.generate_task.snark_path ≡ true
    → IsSound s
    → (src.state ≡ task_state_success → any (meets_agg src) s.agg_tasks ≡ true)
    → (s' : Stage) × (src' : AggTask) × (w' : World) × (on_agg_reply w src s ≡ ok (s', src', w'))
      × IsSound s'
on_agg_reply-IsSound w src s can_write (waiting, linked) answers =
    let (src', w', e) = on_agg_reply-ok w src s can_write in
    (agg_answered w src s, src', w', e, sound)
  where
    tasks : List AggTask
    tasks = (answer_agg w.now src s.agg_tasks).1

    waiting' : IsWaiting s.prove_tasks tasks
    waiting' = answer_agg-IsWaiting w.now src s.prove_tasks s.agg_tasks waiting

    linked' : IsLinked s.prove_tasks tasks
    linked' = answer_agg-IsLinked w.now src s.prove_tasks s.agg_tasks linked

    done : (src.state == task_state_success) ≡ true → is_done s.prove_tasks tasks src.task_id ≡ true
    done success =
        let e : src.state ≡ task_state_success = ground arith in
        let d : aggregated src.task_id tasks ≡ true =
          aggregated-answer_agg_met w.now src s.agg_tasks (answers e) e in
        ground arith

    sound : IsSound (agg_answered w src s)
    sound = elim (Bool-cases (src.state == task_state_success)) [
      | inl success ↦ rw success (
        clear_children-IsWaiting src.task_id s.prove_tasks tasks (done success) waiting',
        clear_children-IsLinked src.task_id s.prove_tasks tasks linked',
      )
      | inr other ↦ rw other (waiting', linked')
    ]
