-- ===== src/Examples/Texts.antt =====
-- The text functions of the stage, run.
use zkm_prover.Base.{◌≡◌, refl, some, none}
use zkm_prover.Stage.Segments.{segment_path, deferred_number}

segment_path_120 : segment_path "s" 120 ≡ "s/120"
unfolding segment_path
segment_path_120 = refl

deferred_number_17 : deferred_number "deferred_proof_17" ≡ some 17
unfolding deferred_number
deferred_number_17 = refl

deferred_number_bad : deferred_number "deferred_proof_" ≡ none
unfolding deferred_number
deferred_number_bad = refl
