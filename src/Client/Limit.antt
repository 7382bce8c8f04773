-- ===== src/Client/Limit.antt =====
-- The calls of one proof that share a pool, as a system: how many of them wait for a node, and
-- how many have returned after raising the count without lowering it.
use zkm_prover.Base.{ℕ, suc, ◌+◌, ◌-◌, ◌≤◌, ◌≡◌, refl, List, Bool, arith}
use zkm_prover.Tasks.{SplitTask, ProveTask, AggTask, SnarkTask, task_state_unprocessed}
use zkm_prover.Nodes.{ProverNode}
use zkm_prover.Client.{Pool, Outside, at_limit, on_node, enter_on, leave}
use zkm_prover.Client.Calls.{
  returns, prove_on, begin_split, begin_prove, begin_aggregate, begin_snark,
}
use zkm_prover.Client.Laws.{begin-at_limit}

pub record System : Type 0 where
  pub pool : Pool
  pub waiting : ℕ
  pub leaked : ℕ

abbrev pub initial : List ProverNode → System
initial nodes = record {
  pool = record { nodes = nodes; cur_prover_num = 0 };
  waiting = 0;
  leaked = 0;
}

-- A step is what one call does between two waits. `search`: `get_idle_client` changes the
-- statuses. `refused` and `entered`: the second test of the limit. `met`: `prove` lets go of a
-- node that its task has met. `answered`: a waiting call has its reply.
pub data Move (max_prover_num : ℕ) (s : System) : System → Type 0 where
  search :
      (nodes : List ProverNode)
      → Move max_prover_num s (record s { pool = record s.pool { nodes = nodes } })
  refused :
      (i : ℕ) (q : Pool)
      → enter_on max_prover_num s.pool i ≡ (q, at_limit)
      → Move max_prover_num s (record s { pool = q })
  entered :
      (i : ℕ) (q : Pool)
      → enter_on max_prover_num s.pool i ≡ (q, on_node i)
      → Move max_prover_num s (record s { pool = q; waiting = suc s.waiting })
  met :
      (t : ProveTask) (i : ℕ) (q r : Pool)
      → enter_on max_prover_num s.pool i ≡ (q, on_node i)
      → prove_on q t i ≡ (r, returns t)
      → Move max_prover_num s (record s { pool = r; leaked = suc s.leaked })
  answered :
      (i n now : ℕ) (has_reply : Bool)
      → s.waiting ≡ suc n
      → Move max_prover_num s (record s { pool = leave now has_reply i s.pool; waiting = n })

pub data Reach (max_prover_num : ℕ) (s : System) : System → Type 0 where
  start : Reach max_prover_num s s
  later :
      {t u : System} → Reach max_prover_num s t → Move max_prover_num t u → Reach max_prover_num s u

-- The count is that of the waiting calls and the leaked ones, within the limit.
pub record IsCounted (max_prover_num : ℕ) (s : System) : Type 0 where
  pub counts : s.pool.cur_prover_num ≡ s.waiting + s.leaked
  pub bounded : s.pool.cur_prover_num ≤ max_prover_num

enter_on-refused :
    (max_prover_num : ℕ) (p q : Pool) (i : ℕ)
    → enter_on max_prover_num p i ≡ (q, at_limit)
    → q.cur_prover_num ≡ p.cur_prover_num
unfolding enter_on
enter_on-refused max_prover_num p q i e = ground (arith, e)

enter_on-entered :
    (max_prover_num : ℕ) (p q : Pool) (i : ℕ)
    → enter_on max_prover_num p i ≡ (q, on_node i)
    → (q.cur_prover_num ≡ suc p.cur_prover_num) × (q.cur_prover_num ≤ max_prover_num)
unfolding enter_on
enter_on-entered max_prover_num p q i e = (ground (arith, e), ground (arith, e))

prove_on-returns :
    (q r : Pool) (t : ProveTask) (i : ℕ)
    → prove_on q t i ≡ (r, returns t)
    → r.cur_prover_num ≡ q.cur_prover_num
unfolding prove_on
prove_on-returns q r t i e = ground (arith, e)

leave-count :
    (now : ℕ) (has_reply : Bool) (i : ℕ) (p : Pool)
    → (leave now has_reply i p).cur_prover_num ≡ p.cur_prover_num - 1
unfolding leave
leave-count now has_reply i p = refl

Move-IsCounted :
    {max_prover_num : ℕ} {s t : System}
    → IsCounted max_prover_num s
    → Move max_prover_num s t
    → IsCounted max_prover_num t
Move-IsCounted h (search nodes) = record { counts = h.counts; bounded = h.bounded }
Move-IsCounted {max_prover_num} {s} h (refused i q e) =
    let same = enter_on-refused max_prover_num s.pool q i e in
    let counts = h.counts in
    let bounded = h.bounded in record { counts = omega arith; bounded = omega arith }
Move-IsCounted {max_prover_num} {s} h (entered i q e) =
    let (more, few) = enter_on-entered max_prover_num s.pool q i e in
    let counts = h.counts in record { counts = omega arith; bounded = omega arith }
Move-IsCounted {max_prover_num} {s} h (met t i q r e f) =
    let (more, few) = enter_on-entered max_prover_num s.pool q i e in
    let same = prove_on-returns q r t i f in
    let counts = h.counts in record { counts = omega arith; bounded = omega arith }
Move-IsCounted {max_prover_num} {s} h (answered i n now has_reply e) =
    let less = leave-count now has_reply i s.pool in
    let counts = h.counts in
    let bounded = h.bounded in record { counts = omega arith; bounded = omega arith }

-- In every state that a fresh pool can reach, however the calls interleave, the count is the
-- number of waiting calls and of leaked ones, and at most max_prover_num.
pub Reach-IsCounted :
    (max_prover_num : ℕ) (nodes : List ProverNode) (s : System)
    → Reach max_prover_num (initial nodes) s
    → IsCounted max_prover_num s
Reach-IsCounted m nodes s start = record { counts = refl; bounded = omega arith }
Reach-IsCounted m nodes s (later {t} r move) = Move-IsCounted (Reach-IsCounted m nodes t r) move

Move-leaked : {max_prover_num : ℕ} {s t : System} → Move max_prover_num s t → s.leaked ≤ t.leaked
Move-leaked (search nodes) = omega arith
Move-leaked (refused i q e) = omega arith
Move-leaked (entered i q e) = omega arith
Move-leaked (met t i q r e f) = omega arith
Move-leaked (answered i n now has_reply e) = omega arith

Reach-leaked : {max_prover_num : ℕ} {s t : System} → Reach max_prover_num s t → s.leaked ≤ t.leaked
Reach-leaked start = omega arith
Reach-leaked (later {t} r move) =
    let before = Reach-leaked r in let after = Move-leaked move in omega arith

Reach-joined :
    {max_prover_num : ℕ} {s t u : System}
    → Reach max_prover_num s t
    → Reach max_prover_num t u
    → Reach max_prover_num s u
Reach-joined r start = r
Reach-joined r (later q move) = later (Reach-joined r q) move

-- Once as many calls have leaked as the limit allows, no call of the proof ever reaches a node
-- again: in every later state each of the four calls returns its task at once and leaves the pool
-- as it is.
pub leaked-starves :
    (max_prover_num : ℕ) (nodes : List ProverNode) (s u : System)
    → Reach max_prover_num (initial nodes) s
    → max_prover_num ≤ s.leaked
    → Reach max_prover_num s u
    → (out : Outside) (split : SplitTask) (prove : ProveTask) (agg : AggTask) (snark : SnarkTask)
    → (begin_split out max_prover_num split u.pool
        ≡ (u.pool, returns (record split { state = task_state_unprocessed })))
      × (begin_prove out max_prover_num prove u.pool
          ≡ (u.pool, returns (record prove { state = task_state_unprocessed })))
      × (begin_aggregate out max_prover_num agg u.pool
          ≡ (u.pool, returns (record agg { state = task_state_unprocessed })))
      × (begin_snark out max_prover_num snark u.pool ≡ (u.pool, returns snark))
leaked-starves m nodes s u r full later_on out split prove agg snark =
    let counted = (Reach-IsCounted m nodes u (Reach-joined r later_on)).counts in
    let more = Reach-leaked later_on in
    begin-at_limit out m u.pool split prove agg snark (omega arith)
