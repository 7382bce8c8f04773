-- ===== src/Service/Accepts.antt =====
-- How `generate_proof` ends: a proof is queued exactly where the answer says that it is computing.
use zkm_prover.Base.{
  String, ◌≡◌, refl, ap, subst, ◌⊎◌, inl, inr, Bool, true, false, Option, none, some, [], ◌∷◌, ◌++◌,
}
use zkm_prover.Tasks.{GenerateTask}
use zkm_prover.Stage.{Backend}
use zkm_prover.Database.{Database, insert_stage_task}
use zkm_prover.Worker.Finish.{status_computing}
use zkm_prover.Config.{RuntimeConfig}
use zkm_prover.Service.{
  GenerateProofRequest, Outside, Outcome, go, stop, Reply, responded, internal, panicked,
  ServiceState, status_invalid_parameter,
}
use zkm_prover.Service.Generate.{
  accepted, stage_task, send, insert, insert_and_send, enqueue, prepare, generate_proof,
}
use zkm_prover.Service.Holds.{IsRefusal, Holds}
use zkm_prover.Service.Prepares.{IsPrepared, prepare-IsPrepared}

module _ (outside : Outside) (backend : Backend) (config : RuntimeConfig)
    (req : GenerateProofRequest) where
  -- One row has been added, and its task stands last in the queue.
  abbrev pub IsQueued : ServiceState → ServiceState → Type 0
  IsQueued s s' =
      (made : String × GenerateTask) × IsPrepared outside backend config s.db req made
      × (context : String) × (outside.to_context made.1 ≡ some context)
      × (insert_stage_task s.db req.proof_id made.0 status_computing context ≡ some s'.db)
      × (s'.queue ≡ s.queue ++ stage_task req.proof_id context ∷ [])

  -- No proof has been taken. Only a closed queue leaves a row behind.
  abbrev pub IsLeft : ServiceState → ServiceState → Type 0
  IsLeft s s' = (s'.queue ≡ s.queue) × (s.has_receiver ≡ true → s'.db ≡ s.db)

  abbrev pub Settles : ServiceState → ServiceState → Reply → Type 0
  Settles s s' (responded r) =
      ((r.status ≡ status_computing) × IsQueued s s')
      ⊎ ((r.status ≡ status_invalid_parameter) × IsLeft s s')
  Settles s s' internal = IsLeft s s'
  Settles s s' (panicked reason) = IsLeft s s'

  IsRefusal-Settles : (s : ServiceState) (reply : Reply) → IsRefusal reply → Settles s s reply
  IsRefusal-Settles s (responded r) h = inr (h, (refl, λ opened. refl))
  IsRefusal-Settles s internal h = (refl, λ opened. refl)
  IsRefusal-Settles s (panicked reason) h = (refl, λ opened. refl)

  module _ (s : ServiceState) (made : String × GenerateTask)
      (prepared : IsPrepared outside backend config s.db req made) (context : String)
      (encoded : outside.to_context made.1 ≡ some context) where
    send-Settles :
        (db : Database)
        → insert_stage_task s.db made.1.proof_id made.0 status_computing context ≡ some db
        → (has_receiver : Bool) → s.has_receiver ≡ has_receiver
        → let (s', reply) =
            send
              (accepted backend config made.1)
              (stage_task made.1.proof_id context)
              (record s { db = db })
              has_receiver in
          Settles s s' reply
    unfolding send accepted
    send-Settles db inserted true opened = inl (
      refl,
      (
        made,
        prepared,
        context,
        encoded,
        subst (λ id. insert_stage_task s.db id made.0 status_computing context ≡ some db)
            prepared.named inserted,
        ap (λ id. s.queue ++ stage_task id context ∷ []) prepared.named,
      ),
    )
    send-Settles db inserted false closed = (refl, λ opened. cc)

    insert-Settles :
        (inserted : Option Database)
        → insert_stage_task s.db made.1.proof_id made.0 status_computing context ≡ inserted
        → let (s', reply) =
            insert
              (accepted backend config made.1)
              (stage_task made.1.proof_id context)
              s
              inserted in
          Settles s s' reply
    unfolding insert
    insert-Settles none e = (refl, λ opened. refl)
    insert-Settles (some db) e = send-Settles db e s.has_receiver refl

  insert_and_send-Settles :
      (s : ServiceState) (made : String × GenerateTask)
      → IsPrepared outside backend config s.db req made
      → (context : Option String) → outside.to_context made.1 ≡ context
      → let (s', reply) =
          insert_and_send (accepted backend config made.1) made.0 made.1 s context in
        Settles s s' reply
  unfolding insert_and_send
  insert_and_send-Settles s made prepared none e = (refl, λ opened. refl)
  insert_and_send-Settles s made prepared (some context) e =
      insert-Settles s made prepared context e
        (insert_stage_task s.db made.1.proof_id made.0 status_computing context) refl

  enqueue-Settles :
      (s : ServiceState) (o : Outcome (String × GenerateTask))
      → Holds (IsPrepared outside backend config s.db req) o
      → let (s', reply) = enqueue outside backend config s o in Settles s s' reply
  unfolding enqueue
  enqueue-Settles s (go made) prepared =
      insert_and_send-Settles s made prepared (outside.to_context made.1) refl
  enqueue-Settles s (stop reply) refusal = IsRefusal-Settles s reply refusal

  -- generate_proof answers that a proof is computing exactly where it adds the proof's row and
  -- sends its task as the last of the queue; then the signer is on the white list, the two steps
  -- are among the allowed, in the build with the feature prover the segments of a proof that is
  -- not composite have a size from 1024 to 4194304 (the size is free in the other build and for
  -- composite proofs), a proof from the aggregation has receipts and is not for a single node, and
  -- the task has the id, the block number and the steps of the request, no program, and at most as
  -- many nodes as there are, one at least if there is one. Any other answer is InvalidParameter,
  -- an internal error or a panic, sends nothing, and adds no row unless the queue is closed.
  pub generate_proof-Settles :
      (s : ServiceState)
      → let (s', reply) = generate_proof outside backend config req s in Settles s s' reply
  unfolding generate_proof
  generate_proof-Settles s =
      let (w, o) = prepare outside backend config s.db req s.world in
      enqueue-Settles (record s { world = w }) o
        (prepare-IsPrepared outside backend config s.db req s.world)
