-- ===== src/Stage/Waiting/Replies.antt =====
-- Replies keep every task waiting for what is not done.
use zkm_prover.Base.{
  ◌≡◌, refl, ◌∙◌, ◌⊎◌, inl, inr, String, Bool, true, false, ◌||◌, List, [], ◌∷◌, all, all-cons,
  all_mono, Bool-cases, arith,
}
use zkm_prover.Tasks.{ProveTask, AggTask, AggregateInput}
use zkm_prover.Tasks.Agg.{clear_child_task}
use zkm_prover.Tasks.Agg.Clear.{awaits, clear_child_task-awaits, clear_child_task-keeps}
use zkm_prover.Stage.Prove.{clear_children}
use zkm_prover.Stage.Waiting.{aggregated, is_done, is_covered, IsWaiting, all_covered_mono}
use zkm_prover.Stage.Waiting.Take.{all_inputs}
use zkm_prover.Stage.Waiting.Hand.{has_agg, is_linked, IsLinked, all_inputs_mono}

aggregated-clear_children :
    (id other : String) (ts : List AggTask)
    → aggregated other (clear_children id ts) ≡ aggregated other ts
unfolding clear_children
aggregated-clear_children id other [] = refl
aggregated-clear_children id other (t ∷ ts) =
    ground (arith, clear_child_task-keeps id t, aggregated-clear_children id other ts)

has_agg-clear_children :
    (id other : String) (ts : List AggTask)
    → has_agg other (clear_children id ts) ≡ has_agg other ts
unfolding clear_children
has_agg-clear_children id other [] = refl
has_agg-clear_children id other (t ∷ ts) =
    ground (arith, clear_child_task-keeps id t, has_agg-clear_children id other ts)

all_inputs-clear_children :
    (id : String) (p : AggregateInput → Bool) (ts : List AggTask)
    → all_inputs p (clear_children id ts) ≡ all_inputs p ts
unfolding clear_children
all_inputs-clear_children id p [] = refl
all_inputs-clear_children id p (t ∷ ts) =
    ground (arith, clear_child_task-keeps id t, all_inputs-clear_children id p ts)

clear_child_task-covered :
    (id : String) (done : String → Bool) (t : AggTask)
    → done id ≡ true
    → is_covered done t ≡ true
    → is_covered done (clear_child_task id t).0 ≡ true
clear_child_task-covered id done t d h = rw (clear_child_task-keeps id t).2 (
    all_mono
      (λ (i : AggregateInput). awaits t.childs i.computed_request_id || done i.computed_request_id)
      (λ i.
        awaits (clear_child_task id t).0.childs i.computed_request_id || done i.computed_request_id)
      t.inputs
      (λ i c. one i.computed_request_id (Bool-cases (awaits t.childs i.computed_request_id)) c) h)
  where
    one :
        (other : String)
        → (awaits t.childs other ≡ true) ⊎ (awaits t.childs other ≡ false)
        → (awaits t.childs other || done other) ≡ true
        → (awaits (clear_child_task id t).0.childs other || done other) ≡ true
    one other (inl waiting) c = ground (arith, clear_child_task-awaits id other t waiting, d)
    one other (inr free) c = ground arith

covered-clear_children :
    (id : String) (done : String → Bool) (ts : List AggTask)
    → done id ≡ true
    → all (is_covered done) ts ≡ true
    → all (is_covered done) (clear_children id ts) ≡ true
covered-clear_children id done [] d h = unfold clear_children in refl
covered-clear_children id done (t ∷ ts) d h =
    let (here, there) = all-cons (is_covered done) t ts h in
    split (clear_child_task-covered id done t d here) (covered-clear_children id done ts d there)
      there
  where
    split :
        is_covered done (clear_child_task id t).0 ≡ true
        → all (is_covered done) (clear_children id ts) ≡ true
        → all (is_covered done) ts ≡ true
        → all (is_covered done) (clear_children id (t ∷ ts)) ≡ true
    split a b c = unfold clear_children in ground arith

-- A task that is done may be cleared everywhere.
pub clear_children-IsWaiting :
    (id : String) (proves : List ProveTask) (ts : List AggTask)
    → is_done proves ts id ≡ true
    → IsWaiting proves ts
    → IsWaiting proves (clear_children id ts)
clear_children-IsWaiting id proves ts d h =
    all_covered_mono (is_done proves ts) (is_done proves (clear_children id ts))
      (clear_children id ts) (λ other e. rw (aggregated-clear_children id other ts) e)
      (covered-clear_children id (is_done proves ts) ts d h)

pub clear_children-IsLinked :
    (id : String) (proves : List ProveTask) (ts : List AggTask)
    → IsLinked proves ts
    → IsLinked proves (clear_children id ts)
clear_children-IsLinked id proves ts h =
    all_inputs_mono (is_linked ts proves) (is_linked (clear_children id ts) proves)
      (clear_children id ts) (λ i e. rw (has_agg-clear_children id i.computed_request_id ts) e)
      (all_inputs-clear_children id (is_linked ts proves) ts ∙ h)
