-- ===== src/Worker/Single/Lost.antt =====
-- A single-node proof that a node has taken up, met again after a restart of the service.
use zkm_prover.Base.{ℕ, ◌≡◌, refl, ◌∙◌, String, true, Option, none, some, List, arith}
use zkm_prover.Platform.{ok, Env, World}
use zkm_prover.Tasks.{GenerateTask, SingleNodeTask}
use zkm_prover.Stage.{Backend}
use zkm_prover.Nodes.{ProverNode}
use zkm_prover.Database.{StageTask, Database, get_stage_task, update_stage_task_check_at}
use zkm_prover.Database.Rows.{get_stage_task-update_check_at}
use zkm_prover.Client.Single.{
  Look, seek, SingleNodeRequest, waits_for, after_claim, claim_on, begin_single_node,
}
use zkm_prover.Worker.{Codec}
use zkm_prover.Worker.Finish.{nothing, begin_task}

after_claim-moves :
    (n i : ℕ) (t t₁ : SingleNodeTask) (req : SingleNodeRequest) (db : Database)
    (updated : Option (Database × ℕ))
    → (after_claim n t db updated).1 ≡ waits_for i t₁ req
    → (rows : ℕ) × (updated ≡ some ((after_claim n t db updated).0, rows))
unfolding after_claim
after_claim-moves n i t t₁ req db none h = cc
after_claim-moves n i t t₁ req db (some (db', rows)) h = (rows, refl)

claim_on-moves :
    (id : String) (old new i : ℕ) (t t₁ : SingleNodeTask) (req : SingleNodeRequest) (db : Database)
    (found : Option ℕ)
    → (claim_on id old new t db found).1 ≡ waits_for i t₁ req
    → (rows : ℕ) × (update_stage_task_check_at db id old new 2
        ≡ some ((claim_on id old new t db found).0, rows))
unfolding claim_on
claim_on-moves id old new i t t₁ req db none h = cc
claim_on-moves id old new i t t₁ req db (some n) h =
    after_claim-moves n i t t₁ req db (update_stage_task_check_at db id old new 2) h

module _ (backend : Backend) (codec : Codec) (env : Env) (tries : List Look)
    (nodes : List ProverNode) (id : String) (check_at : ℕ) (task : SingleNodeTask) (db : Database)
    (t : StageTask) where
  begins_moved :
      (w : World) (db' : Database) (t' : StageTask) (context : String) (g : GenerateTask)
      → t'.context ≡ some context
      → codec.from_json context ≡ some g
      → g.single_node ≡ true
      → t'.step ≡ 2
      → begin_task backend codec env w t' db' ≡ ok nothing
  unfolding begin_task
  begins_moved w db' t' context g c d single moved = ground arith

  -- Once a node has been found for a single-node proof and the database has taken the claim, the
  -- row keeps its status, and a worker that meets it after a restart returns without a change,
  -- whatever the time and the database.
  pub begin_single_node-lost :
      (i : ℕ) (task' : SingleNodeTask) (req : SingleNodeRequest) (context : String)
      (g : GenerateTask)
      → get_stage_task db id ≡ some t
      → t.context ≡ some context
      → codec.from_json context ≡ some g
      → g.single_node ≡ true
      → let (nodes', db', begun) = begin_single_node tries id t.check_at check_at task db nodes in
        begun ≡ waits_for i task' req
        → (t' : StageTask) × (get_stage_task db' id ≡ some t')
          × (t'.status ≡ t.status)
          × ((w : World) (later : Database) → begin_task backend codec env w t' later ≡ ok nothing)
  unfolding begin_single_node
  begin_single_node-lost i task' req context g found c d single begun =
      let (rows, moved) =
        claim_on-moves id t.check_at check_at i _ task' req db (seek tries nodes).1 begun in
      let (t', found', same, kept, step) =
        get_stage_task-update_check_at db _ id t.check_at check_at 2 rows t moved found in
      (
        t',
        found',
        kept,
        λ w later. begins_moved w later t' context g (same ∙ c) d single (step refl),
      )
