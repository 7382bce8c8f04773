-- ===== src/Service/Reports.antt =====
-- `get_status` beside what has been done with the proof: the composition of the service, the
-- database and the worker.
use Prim.Native.String.{String}
use zkm_prover.Base.{
  ◌≡◌, refl, sym, ap, ◌∙◌, ◌⊎◌, inl, inr, ◌↔◌, Bool, true, false, Option, none, some, List, [],
  some_injective,
}
use zkm_prover.Platform.{Result, ok, Ensures, Ensures->>=, Ensures-any, Ensures-mono, World}
use zkm_prover.Tasks.{GenerateTask, SplitTask}
use zkm_prover.Stage.{Backend}
use zkm_prover.Database.{StageTask, Database, get_prove_task_infos}
use zkm_prover.Database.Rows.{new_row}
use zkm_prover.Worker.{task_itype_split}
use zkm_prover.Worker.Finish.{status_success, status_computing}
use zkm_prover.Config.{RuntimeConfig}
use zkm_prover.Service.Status.{
  GetStatusResponse, Decoder, Told, tell, tell_context, read_outputs, read_proof, is_shown, show_if,
  show_proof, report, answer,
}

-- The split tasks of a proof can be read.
abbrev pub HasInfos : Decoder → Database → String → Type 0
HasInfos decoder db id =
    (infos : Option (List SplitTask)) × (get_prove_task_infos decoder.split_from_json db id
        task_itype_split
      ≡ ok infos)

-- A row of a proof that is computing, as it is reported.
abbrev pub IsComputing : Result GetStatusResponse → Type 0
IsComputing answer =
    (r : GetStatusResponse) × (answer ≡ ok r)
    × (r.status ≡ status_computing)
    × (r.step ≡ 0)
    × (r.proof_with_public_inputs ≡ [])

success_of :
    (task : StageTask)
    → (◌≡◌ {A = Option StageTask} (some task) none)
      ⊎ ((t : StageTask) × (some task ≡ some t) × (t.status ≡ status_success))
    → task.status ≡ status_success
success_of task (inl h) = cc
success_of task (inr (t, same, h)) = ap (λ (u : StageTask). u.status) (some_injective same) ∙ h

module _ (decoder : Decoder) (backend : Backend) (config : RuntimeConfig) (w : World) where
  show_if-IsComputing :
      (shown : Bool) (id context : String) (told : Told) (response : GetStatusResponse)
      → response.status ≡ status_computing
      → response.step ≡ 0
      → response.proof_with_public_inputs ≡ []
      → IsComputing (
          show_if shown decoder backend config w
            (new_row id status_computing context)
            id
            told
            response)
  unfolding show_if show_proof read_proof
  show_if-IsComputing true id context told response status step proof =
      (_, refl, status, step, refl)
  show_if-IsComputing false id context told response status step proof =
      (response, refl, status, step, proof)

  tell-computing :
      (context : Option GenerateTask)
      → (told : Told) × (tell_context w status_computing context ≡ ok told)
  unfolding tell_context read_outputs
  tell-computing none = (_, refl)
  tell-computing (some context) = (_, refl)

  pub answer-new_row :
      (db : Database) (id context : String)
      → HasInfos decoder db id
      → IsComputing
          (answer decoder backend config w db id (some (new_row id status_computing context)))
  unfolding answer report tell
  answer-new_row db id context (infos, e) =
      let (told, f) = tell-computing (decoder.from_json context) in
      rw (e, f) (show_if-IsComputing (is_shown told) id context told _ refl refl refl)

  -- The status of an answer is that of the row.
  show_if-status :
      (shown : Bool) (task : StageTask) (id : String) (told : Told) (response : GetStatusResponse)
      → Ensures
          (λ r. r.status ≡ response.status)
          (show_if shown decoder backend config w task id told response)
  unfolding show_if show_proof
  show_if-status true task id told response =
      Ensures->>= _ (read_proof decoder w task.status told task.result) _ (Ensures-any _)
        (λ proof h. refl)
  show_if-status false task id told response = refl

  report-status :
      (db : Database) (id : String) (task : StageTask)
      → Ensures (λ r. r.status ≡ task.status) (report decoder backend config w db id task)
  unfolding report
  report-status db id task =
      Ensures->>= _ (get_prove_task_infos decoder.split_from_json db id task_itype_split) _
        (Ensures-any _)
        λ infos h.
          Ensures->>= _ (tell decoder w task.status task.context) _ (Ensures-any _)
            (λ told h'. show_if-status (is_shown told) task id told _)

  pub answer-status :
      (db : Database) (id : String) (found : Option StageTask)
      → Ensures
          (λ r. (r.status ≡ status_success) ↔ (
            (found ≡ none)
            ⊎ ((task : StageTask) × (found ≡ some task) × (task.status ≡ status_success))))
          (answer decoder backend config w db id found)
  unfolding answer
  answer-status db id none = (λ h. inl refl, λ h. refl)
  answer-status db id (some task) =
      Ensures-mono (report decoder backend config w db id task) (report-status db id task) λ r same.
        (λ h. inr (task, refl, sym same ∙ h), λ where_from. same ∙ success_of task where_from)
