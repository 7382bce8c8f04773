-- ===== src/Service/Ends.antt =====
-- What a user is told of a proof, from its acceptance to its end.
use Prim.Native.String.{String}
use zkm_prover.Base.{
  ℕ, ◌≡◌, refl, sym, ap, ◌∙◌, ◌⊎◌, inl, inr, ◌↔◌, Bool, true, false, none, some, arith, subst,
}
use zkm_prover.Platform.{Bytes, Result, ok, Ensures-ok, unwrap-eq-ok, World, read, unwrap_none}
use zkm_prover.Tasks.{Step, GenerateTask}
use zkm_prover.Stage.{Backend, Stage}
use zkm_prover.Stage.Agg.{is_agg_step}
use zkm_prover.Database.{StageTask, Database, get_stage_task}
use zkm_prover.Database.Rows.{get_stage_task-insert}
use zkm_prover.Worker.{Codec, Work}
use zkm_prover.Worker.Finish.{status_success, status_computing, proof_result, finish, is_snark_step}
use zkm_prover.Worker.Row.{finish-row}
use zkm_prover.Config.{RuntimeConfig}
use zkm_prover.Service.{
  GenerateProofRequest, GenerateProofResponse, Outside, responded, ServiceState,
}
use zkm_prover.Service.Generate.{generate_proof}
use zkm_prover.Service.Accepts.{Settles, generate_proof-Settles}
use zkm_prover.Service.Status.{
  GetStatusResponse, Decoder, Told, tell, tell_context, read_outputs, has_outputs, read_proof,
  file_proof, is_shown, show_proof, show_if, report, answer, get_status,
}
use zkm_prover.Service.Reports.{HasInfos, IsComputing, answer-new_row, answer-status}

proof_result-read :
    (w : World) (s : Stage) (bytes : Bytes)
    → s.generate_task.target_step ≡ Step.snark
    → proof_result w s ≡ ok bytes
    → read w s.generate_task.snark_path ≡ some bytes
unfolding proof_result
proof_result-read w s bytes snark h =
    unwrap-eq-ok (read w s.generate_task.snark_path) unwrap_none (rw (ap is_snark_step snark) at h)

module _ (decoder : Decoder) (backend : Backend) (config : RuntimeConfig) where
  -- get_status says success exactly where the row of the proof does, or where the query finds no
  -- row: of a proof that is unknown it says that it has succeeded.
  pub get_status-success :
      (w : World) (db : Database) (id : String) (r : GetStatusResponse)
      → get_status decoder backend config w db id ≡ ok r
      → (r.status ≡ status_success) ↔ (
          (get_stage_task db id ≡ none)
          ⊎ ((task : StageTask) × (get_stage_task db id ≡ some task)
              × (task.status ≡ status_success)))
  unfolding get_status
  get_status-success w db id r e =
      Ensures-ok _ _ r (answer-status decoder backend config w db id (get_stage_task db id)) e

  accepted-IsComputing :
      (outside : Outside) (req : GenerateProofRequest) (s s' : ServiceState)
      (r : GenerateProofResponse) (w : World)
      → Settles outside backend config req s s' (responded r)
      → r.status ≡ status_computing
      → HasInfos decoder s'.db req.proof_id
      → IsComputing (get_status decoder backend config w s'.db req.proof_id)
  unfolding get_status
  accepted-IsComputing outside req s s' r w (inl (status, queued)) e infos =
      let (made, prepared, context, encoded, inserted, sent) = queued in
      let found =
        get_stage_task-insert s.db s'.db req.proof_id made.0 context status_computing inserted in
      subst (λ row. IsComputing (answer decoder backend config w s'.db req.proof_id row))
        (sym found) (answer-new_row decoder backend config w s'.db req.proof_id context infos)
  accepted-IsComputing outside req s s' r w (inr (status, left)) e infos =
      absurd (omega (arith, sym status ∙ e))

  -- As soon as generate_proof has answered that a proof is computing, get_status says so too, with
  -- the first step and no proof, if the proof's split tasks can be read.
  pub get_status-generate_proof :
      (outside : Outside) (req : GenerateProofRequest) (s : ServiceState)
      (r : GenerateProofResponse) (w : World)
      → let (s', reply) = generate_proof outside backend config req s in
        reply ≡ responded r
        → r.status ≡ status_computing
        → HasInfos decoder s'.db req.proof_id
        → IsComputing (get_status decoder backend config w s'.db req.proof_id)
  get_status-generate_proof outside req s r w e status infos =
      let (s', reply) = generate_proof outside backend config req s in
      accepted-IsComputing outside req s s' r w
        (subst (Settles outside backend config req s s') e
          (generate_proof-Settles outside backend config req s))
        status infos

  read_proof-snark :
      (w : World) (told : Told) (text : String)
      → told.target_step ≡ Step.snark
      → read_proof decoder w status_success told (some text) ≡ ok (decoder.into_bytes text)
  unfolding read_proof file_proof
  read_proof-snark w told text target = rw (ap is_agg_step target)

  is_shown-snark :
      (told : Told)
      → told.target_step ≡ Step.snark
      → told.composite_proof ≡ false
      → is_shown told ≡ true
  is_shown-snark told target whole = ground (arith, target, whole)

  -- A proof that is shown.
  abbrev IsShown : ℕ → Bytes → Bytes → Result GetStatusResponse → Type 0
  IsShown status proof output answered =
      (r : GetStatusResponse) × (answered ≡ ok r)
      × (r.status ≡ status)
      × (r.proof_with_public_inputs ≡ proof)
      × (r.output_stream ≡ output)

  show_if-snark :
      (w : World) (shown : Bool) (task : StageTask) (id text : String) (told : Told)
      (response : GetStatusResponse)
      → shown ≡ true
      → read_proof decoder w task.status told task.result ≡ ok (decoder.into_bytes text)
      → IsShown response.status
          (decoder.into_bytes text)
          response.output_stream
          (show_if shown decoder backend config w task id told response)
  unfolding show_if show_proof
  show_if-snark w true task id text told response e proof = rw proof (_, refl, refl, refl, refl)
  show_if-snark w false task id text told response e proof = cc

  answer-finished :
      (w : World) (db : Database) (id context text : String) (t : StageTask) (g : GenerateTask)
      (outputs : Bytes × Bytes)
      → HasInfos decoder db id
      → t.context ≡ some context
      → decoder.from_json context ≡ some g
      → g.target_step ≡ Step.snark
      → g.composite_proof ≡ false
      → read_outputs w g (has_outputs status_success g) ≡ ok outputs
      → IsShown status_success (decoder.into_bytes text) outputs.0 (
          answer decoder backend config w db id
            (some (record t { status = status_success; result = some text })))
  unfolding answer report tell tell_context
  answer-finished w db id context text t g outputs (infos, e) c d target whole out =
      let told : Told = record {
        target_step = g.target_step;
        composite_proof = g.composite_proof;
        proof_path = g.snark_path;
        output = outputs.0;
        receipt = outputs.1;
      } in
      rw (e, c, d, out)
        (show_if-snark w (is_shown told) _ id text told _ (is_shown-snark told target whole)
          (read_proof-snark w told text target))

  -- A proof that ends well with a snark, its row there and its context one that asks for a whole
  -- snark, is told by get_status, if its outputs and its split tasks can be read: with success,
  -- with the very bytes that the worker read from the snark's file, and with the output stream.
  -- The decoding of text is taken to give back the bytes.
  pub get_status-finish :
      (codec : Codec) (w w' : World) (task_duration : ℕ) (work : Work) (db : Database)
      (t : StageTask) (context : String) (g : GenerateTask) (outputs : Bytes × Bytes)
      → ((bytes : Bytes) (text : String)
          → codec.from_utf8 bytes ≡ some text
          → decoder.into_bytes text ≡ bytes)
      → finish codec w task_duration work ≡ ok db
      → work.stage.is_error ≡ false
      → work.stage.generate_task.target_step ≡ Step.snark
      → get_stage_task work.db work.id ≡ some t
      → t.context ≡ some context
      → decoder.from_json context ≡ some g
      → g.target_step ≡ Step.snark
      → g.composite_proof ≡ false
      → read_outputs w' g (has_outputs status_success g) ≡ ok outputs
      → HasInfos decoder db work.id
      → (r : GetStatusResponse) × (get_status decoder backend config w' db work.id ≡ ok r)
        × (r.status ≡ status_success)
        × (read w work.stage.generate_task.snark_path ≡ some r.proof_with_public_inputs)
        × (r.output_stream ≡ outputs.0)
  unfolding get_status
  get_status-finish codec w w' task_duration work db t context g outputs inverse ended well snark
        found c d target whole out infos =
      let (bytes, text, t', read_ok, utf8, row, same) =
        finish-row codec w task_duration work db t well ended found in
      let (r, e, status, proof, output) =
        answer-finished w' db work.id context text t' g outputs infos (same ∙ c) d target whole
          out in
      (
        r,
        ap (answer decoder backend config w' db work.id) row ∙ e,
        status,
        proof_result-read w work.stage bytes snark read_ok
            ∙ ap some (sym (proof ∙ inverse bytes text utf8)),
        output,
      )
