-- ===== src/Nodes/Laws.antt =====
-- What `get_idle_client` may do to the nodes.
use zkm_prover.Base.{
  ℕ, zero, suc, ◌≡◌, refl, ap, ◌∙◌, sym, ◌≢◌, inl, inr, String, Bool, true, false, ◌||◌, Option,
  none, some, some_injective, List, [], ◌∷◌, if◌then◌else◌, get_elem?, set, Bool-cases,
  Option-cases, arith, subst, ◌==◌, ==_iff,
}
use zkm_prover.Nodes.{
  busy, off_line, ProverNode, is_skipped, take_node, get_idle_client, keeps_client,
}

-- A node that another call holds.
abbrev pub is_busy : Option ProverNode → Bool
is_busy none = false
is_busy (some node) = elim node.status [ busy ↦ true | _ ↦ false ]

get_elem?-set {ℓ} :
    {A : Type ℓ} (xs : List A) (i j : ℕ) (x v : A)
    → get_elem? xs i ≡ some x
    → get_elem? (set xs i v) j ≡ (if i == j then some v else get_elem? xs j)
get_elem?-set [] i j x v h = cc
get_elem?-set (y ∷ xs) zero zero x v h = refl
get_elem?-set (y ∷ xs) zero (suc j) x v h = ground arith
get_elem?-set (y ∷ xs) (suc i) zero x v h = ground arith
get_elem?-set (y ∷ xs) (suc i) (suc j) x v h =
    get_elem?-set xs i j x v h
    ∙ ap (λ (b : Bool). if b then some v else get_elem? xs j) (ground arith)

busy-is_skipped :
    (now : ℕ) (node : ProverNode) → is_busy (some node) ≡ true → is_skipped now node.status ≡ true
busy-is_skipped now node h = ground arith

module _ (now : ℕ) (reachable : String → Bool) where
  idle_skip :
      (i : ℕ) (order : List ℕ) (nodes : List ProverNode) (node : ProverNode)
      → get_elem? nodes i ≡ some node
      → is_skipped now node.status ≡ true
      → get_idle_client now reachable (i ∷ order) nodes ≡ get_idle_client now reachable order nodes
  unfolding get_idle_client
  idle_skip i order nodes node e skipped = ground arith

  idle_missing :
      (i : ℕ) (order : List ℕ) (nodes : List ProverNode)
      → get_elem? nodes i ≡ none
      → get_idle_client now reachable (i ∷ order) nodes ≡ get_idle_client now reachable order nodes
  unfolding get_idle_client
  idle_missing i order nodes e = ground arith

  -- A node that is not skipped is held, or turns out to be off line.
  data Visit (i : ℕ) (order : List ℕ) (nodes : List ProverNode) (node : ProverNode) : Type 0 where
    holds :
        (taken : ProverNode)
        → get_idle_client now reachable (i ∷ order) nodes ≡ (set nodes i taken, some i)
        → taken ≡ record node { has_client = true; status = busy }
        → Visit i order nodes node
    loses :
        (lost : ProverNode)
        → get_idle_client now reachable (i ∷ order) nodes
          ≡ get_idle_client now reachable order (set nodes i lost)
        → lost.status ≡ off_line now
        → Visit i order nodes node

  visit :
      (i : ℕ) (order : List ℕ) (nodes : List ProverNode) (node : ProverNode)
      → get_elem? nodes i ≡ some node
      → is_skipped now node.status ≡ false
      → Visit i order nodes node
  unfolding get_idle_client take_node
  visit i order nodes node e open_node =
      elim (Bool-cases (keeps_client node.status node.has_client || reachable node.addr)) [
        | inl up ↦ holds (record node { has_client = true; status = busy }) (ground arith) refl
        | inr down ↦
            loses (record node { has_client = false; status = off_line now }) (ground arith) refl
      ]

  -- A busy node is left alone, and is not the one that is found.
  abbrev pub Spares : List ProverNode → List ProverNode × Option ℕ → ℕ → Type 0
  Spares nodes r j = (get_elem? r.0 j ≡ get_elem? nodes j) × (r.1 ≢ some j)

  open_ne_busy :
      (i j : ℕ) (nodes : List ProverNode) (node : ProverNode)
      → get_elem? nodes i ≡ some node
      → is_skipped now node.status ≡ false
      → is_busy (get_elem? nodes j) ≡ true
      → (i == j) ≡ false
  open_ne_busy i j nodes node e open_node b = elim (Bool-cases (i == j)) [
    | inl same ↦ cc (
        sym open_node
        ∙ busy-is_skipped now node (
            subst (λ o. is_busy o ≡ true) (sym (ap (get_elem? nodes) ((==_iff i j).0 same)) ∙ e) b))
    | inr other ↦ other
  ]

  -- A node that is busy is left as it is by get_idle_client, and is not the one that is found.
  pub get_idle_client-Spares :
      (order : List ℕ) (nodes : List ProverNode) (j : ℕ)
      → is_busy (get_elem? nodes j) ≡ true
      → Spares nodes (get_idle_client now reachable order nodes) j
  get_idle_client-Spares [] nodes j b = unfold get_idle_client in (refl, λ e. cc)
  get_idle_client-Spares (i ∷ order) nodes j b = elim (Option-cases (get_elem? nodes i)) [
    | inl missing ↦ rw (idle_missing i order nodes missing) (get_idle_client-Spares order nodes j b)
    | inr (node, e) ↦ elim (Bool-cases (is_skipped now node.status)) [
      | inl skipped ↦
          rw (idle_skip i order nodes node e skipped) (get_idle_client-Spares order nodes j b)
      | inr open_node ↦
          let ne : (i == j) ≡ false = open_ne_busy i j nodes node e open_node b in
          elim (visit i order nodes node e open_node) [
            | holds taken r t ↦ rw r (
              get_elem?-set nodes i j node taken e ∙ rw ne,
              λ f. ground (arith, some_injective f),
            )
            | loses lost r t ↦
                let same : get_elem? (set nodes i lost) j ≡ get_elem? nodes j =
                  get_elem?-set nodes i j node lost e ∙ rw ne in
                let (kept, other) = get_idle_client-Spares order (set nodes i lost) j (rw same b) in
                rw r (kept ∙ same, other)
          ]
    ]
  ]

  -- The node that is found was not to be skipped, and is busy and connected now.
  abbrev pub Held : List ProverNode → List ProverNode → ℕ → Type 0
  Held nodes nodes' i =
      (node : ProverNode) × (get_elem? nodes i ≡ some node)
      × (is_skipped now node.status ≡ false)
      × (get_elem? nodes' i ≡ some (record node { has_client = true; status = busy }))

  lost-is_skipped :
      (lost : ProverNode) → lost.status ≡ off_line now → is_skipped now lost.status ≡ true
  lost-is_skipped lost e = rw e (ground arith)

  -- A node that was lost on the way is not the one that is found in the end.
  Held-past :
      (i j : ℕ) (nodes nodes' : List ProverNode) (node lost : ProverNode)
      → get_elem? nodes i ≡ some node
      → lost.status ≡ off_line now
      → Held (set nodes i lost) nodes' j
      → Held nodes nodes' j
  Held-past i j nodes nodes' node lost e gone (found, at, ready, now_held) =
      elim (Bool-cases (i == j)) [
        | inl same ↦
            let lost_there : get_elem? (set nodes i lost) j ≡ some lost =
              get_elem?-set nodes i j node lost e ∙ rw same in
            let is_lost : lost ≡ found = some_injective (sym lost_there ∙ at) in
            cc (
              sym ready
              ∙ ap (λ (n : ProverNode). is_skipped now n.status) (sym is_lost)
              ∙ lost-is_skipped lost gone)
        | inr other ↦
            (found, sym (get_elem?-set nodes i j node lost e ∙ rw other) ∙ at, ready, now_held)
      ]

  -- The node that get_idle_client finds was idle or out of quarantine, and is busy and connected
  -- now.
  pub get_idle_client-Held :
      (order : List ℕ) (nodes : List ProverNode) (j : ℕ)
      → (get_idle_client now reachable order nodes).1 ≡ some j
      → Held nodes (get_idle_client now reachable order nodes).0 j
  get_idle_client-Held [] nodes j f = unfold get_idle_client in cc f
  get_idle_client-Held (i ∷ order) nodes j f = elim (Option-cases (get_elem? nodes i)) [
    | inl missing ↦
        let r = idle_missing i order nodes missing in
        rw r (get_idle_client-Held order nodes j (rw r at f))
    | inr (node, e) ↦ elim (Bool-cases (is_skipped now node.status)) [
      | inl skipped ↦
          let r = idle_skip i order nodes node e skipped in
          rw r (get_idle_client-Held order nodes j (rw r at f))
      | inr open_node ↦ elim (visit i order nodes node e open_node) [
        | holds taken r t ↦ rw r (
            subst (Held nodes (set nodes i taken)) (some_injective (rw r at f)) (
              node,
              e,
              open_node,
              get_elem?-set nodes i i node taken e ∙ rw ((==_iff i i).1 refl) (ap some t),
            ))
        | loses lost r t ↦ rw r (
            Held-past i j nodes _ node lost e t
              (get_idle_client-Held order (set nodes i lost) j (rw r at f)))
      ]
    ]
  ]
