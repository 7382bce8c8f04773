-- ===== src/Service/Overwrites.antt =====
-- A request with the id of a proof that is known: the files that `generate_proof` writes do not wait
-- for the database.
use zkm_prover.Base.{
  String, ◌≡◌, refl, arith, ap, ◌∙◌, sym, inl, inr, Bool, true, false, Option, none, some, any,
  str_eq,
}
use zkm_prover.Tasks.{GenerateTask}
use zkm_prover.Stage.{Backend}
use zkm_prover.Database.{Database, StageTask, get_user, insert_stage_task}
use zkm_prover.Worker.Finish.{status_computing}
use zkm_prover.Config.{RuntimeConfig}
use zkm_prover.Service.{
  GenerateProofRequest, GenerateProofResponse, Outside, Outcome, go, stop, Reply, responded,
  internal, panicked, ServiceState,
}
use zkm_prover.Service.Checks.{check_address, check_user, verify_signature, first_user, admit}
use zkm_prover.Service.Holds.{IsRefusal}
use zkm_prover.Service.Accepts.{IsLeft, Settles, generate_proof-Settles}
use zkm_prover.Service.Generate.{
  accepted, stage_task, send, insert, insert_and_send, enqueue, prepare, generate_proof,
}

-- Two databases with the same white list.
abbrev pub SameUsers : Outside → Database → Database → Type 0
SameUsers outside db db' =
    (address : String)
    → get_user outside.checksum db address ≡ get_user outside.checksum db' address

module _ (outside : Outside) (backend : Backend) (config : RuntimeConfig)
    (req : GenerateProofRequest) where
  module _ (db db' : Database) (same : SameUsers outside db db') where
    check_address-same :
        (signer : Option String)
        → check_address outside db req signer ≡ check_address outside db' req signer
    unfolding check_address
    check_address-same none = refl
    check_address-same (some address) = ap (first_user req) (same address)

    prepare-same : prepare outside backend config db req ≡ prepare outside backend config db' req
    unfolding prepare admit check_user
    prepare-same = rw (check_address-same (verify_signature outside req))

  send-world :
      (response : GenerateProofResponse) (task : StageTask) (s : ServiceState) (opened : Bool)
      → (send response task s opened).0.world ≡ s.world
  unfolding send
  send-world response task s true = refl
  send-world response task s false = refl

  insert-world :
      (response : GenerateProofResponse) (task : StageTask) (s : ServiceState)
      (db : Option Database)
      → (insert response task s db).0.world ≡ s.world
  unfolding insert
  insert-world response task s none = refl
  insert-world response task s (some db) =
      send-world response task (record s { db = db }) s.has_receiver

  insert_and_send-world :
      (made : String × GenerateTask) (s : ServiceState) (context : Option String)
      → (insert_and_send (accepted backend config made.1) made.0 made.1 s context).0.world ≡ s.world
  unfolding insert_and_send
  insert_and_send-world made s none = refl
  insert_and_send-world made s (some context) =
      insert-world (accepted backend config made.1) (stage_task made.1.proof_id context) s
        (insert_stage_task s.db made.1.proof_id made.0 status_computing context)

  enqueue-world :
      (s : ServiceState) (o : Outcome (String × GenerateTask))
      → (enqueue outside backend config s o).0.world ≡ s.world
  unfolding enqueue
  enqueue-world s (stop reply) = refl
  enqueue-world s (go made) = insert_and_send-world made s (outside.to_context made.1)

  generate_proof-world :
      (s : ServiceState) (fresh : Database)
      → SameUsers outside s.db fresh
      → (generate_proof outside backend config req s).0.world
        ≡ (generate_proof outside backend config req (record s { db = fresh })).0.world
  unfolding generate_proof
  generate_proof-world s fresh same =
      let (w, o) = prepare outside backend config s.db req s.world in
      let (w₀, o₀) = prepare outside backend config fresh req s.world in
      enqueue-world (record s { world = w }) o
      ∙ ap (λ m. (m s.world).0) (prepare-same s.db fresh same)
      ∙ sym (enqueue-world (record s { db = fresh; world = w₀ }) o₀)

  -- A proof's row is in the database.
  abbrev pub IsKnown : Database → Type 0
  IsKnown db = any (λ t. str_eq t.id req.proof_id) db.stage_tasks ≡ true

  known-taken :
      (db : Database) (user context : String)
      → IsKnown db
      → insert_stage_task db req.proof_id user status_computing context ≡ none
  unfolding insert_stage_task
  known-taken db user context known = ground arith

  known-refused :
      (s s' : ServiceState) (reply : Reply)
      → IsKnown s.db
      → Settles outside backend config req s s' reply
      → IsRefusal reply × IsLeft outside backend config req s s'
  known-refused s s' (responded r) known (inl (status, queued)) =
      let (made, prepared, context, encoded, inserted, sent) = queued in
      cc (inserted, known-taken s.db made.0 context known)
  known-refused s s' (responded r) known (inr (status, left)) = (status, left)
  known-refused s s' internal known left = (tt, left)
  known-refused s s' (panicked reason) known left = (tt, left)

  -- A request with the id of a proof that has a row is refused, sends nothing, and changes no row
  -- if the queue is open; but it writes the very files that it writes where the id is new to the
  -- database.
  pub generate_proof-overwrites :
      (s : ServiceState) (fresh : Database)
      → IsKnown s.db
      → SameUsers outside s.db fresh
      → let (s', reply) = generate_proof outside backend config req s in
        let (s₀, reply₀) = generate_proof outside backend config req (record s { db = fresh }) in
        (s'.world ≡ s₀.world) × IsRefusal reply × IsLeft outside backend config req s s'
  generate_proof-overwrites s fresh known same =
      let (s', reply) = generate_proof outside backend config req s in
      let (refused, left) =
        known-refused s s' reply known (generate_proof-Settles outside backend config req s) in
      (generate_proof-world s fresh same, refused, left)
