-- ===== src/Scheduler/Epvm/Choice.antt =====
-- internal/scheduler/epvm.go: which node is chosen.
use netbula.Base.{
  ℕ, ◌≡◌, refl, sym, subst, ◌∙◌, ◌⊎◌, inl, inr, true, false, Option, none, some, List, [], ◌∷◌,
  arith, All, contains, Distinct, nat_eq, Bool-cases,
}
use mathlib.Core.Path.{subst₂}
use netbula.Base.Dict.{Dict, insert, get_or, get_or-insert}
use netbula.Floats.{Floats, IsOrdered}
use netbula.Task.{Task}
use netbula.Node.{Node}
use netbula.Scheduler.Epvm.{fits, select_candidate_nodes, cost, score_from, score, score_of, pick}
use netbula.Scheduler.Epvm.Picking.{
  In, In-fitting, Numbers, fitting, pick-Lowest, select_candidate_nodes-fitting,
}

module _ (F : Floats) where
  -- The ids of the nodes' workers.
  abbrev pub uuids : List Node → List ℕ
  uuids [] = []
  uuids (n ∷ ns) = n.worker_uuid ∷ uuids ns

  score_from-other :
      (t : Task) (nodes : List Node) (scores : Dict ℕ ℕ) (u : ℕ)
      → contains (uuids nodes) u ≡ false
      → get_or u 0 (score_from F t nodes scores) ≡ get_or u 0 scores
  unfolding score_from contains
  score_from-other t [] scores u h = refl
  score_from-other t (n ∷ nodes) scores u h = ground (
    arith,
    score_from-other t nodes (insert n.worker_uuid (cost F t n) scores) u,
    get_or-insert u n.worker_uuid 0 (cost F t n) scores,
  )

  score_from-cost :
      (t : Task) (nodes : List Node) (scores : Dict ℕ ℕ)
      → Distinct (uuids nodes)
      → All (λ n. score_of F (score_from F t nodes scores) n ≡ cost F t n) nodes
  unfolding score_from
  score_from-cost t [] scores d = tt
  score_from-cost t (n ∷ nodes) scores d = (
    score_from-other t nodes (insert n.worker_uuid (cost F t n) scores) n.worker_uuid d.0
        ∙ ground (arith, get_or-insert n.worker_uuid n.worker_uuid 0 (cost F t n) scores),
    score_from-cost t nodes (insert n.worker_uuid (cost F t n) scores) d.1,
  )

  All-In {ℓ} : (P : Node → Type ℓ) (ns : List Node) (n : Node) → All P ns → In n ns → P n
  All-In P [] n a i = absurd i
  All-In P (m ∷ ns) n (p, ps) (inl e) = subst P (sym e) p
  All-In P (m ∷ ns) n (p, ps) (inr i) = All-In P ns n ps i

  All-fitting {ℓ} :
      (P : Node → Type ℓ) (t : Task) (ns : List Node) → All P ns → All P (fitting F t ns)
  All-fitting P t [] a = tt
  All-fitting P t (n ∷ ns) (p, ps) = elim (Bool-cases (fits F t n)) [
    | inl c ↦ rw c (p, All-fitting P t ns ps)
    | inr c ↦ rw c (All-fitting P t ns ps)
  ]

  uuids-fitting :
      (t : Task) (ns : List Node) (u : ℕ)
      → contains (uuids ns) u ≡ false
      → contains (uuids (fitting F t ns)) u ≡ false
  unfolding contains
  uuids-fitting t [] u h = refl
  uuids-fitting t (n ∷ ns) u h = ground (arith, uuids-fitting t ns u)

  fitting-Distinct :
      (t : Task) (ns : List Node) → Distinct (uuids ns) → Distinct (uuids (fitting F t ns))
  fitting-Distinct t [] d = tt
  fitting-Distinct t (n ∷ ns) d =
      ground (arith, fitting-Distinct t ns d.1, uuids-fitting t ns n.worker_uuid)

  fitting-In :
      (t : Task) (ns : List Node) (n : Node) → In n ns → fits F t n ≡ true → In n (fitting F t ns)
  fitting-In t [] n i f = absurd i
  fitting-In t (m ∷ ns) n i f = ground (arith, fitting-In t ns n)

  -- One round of scheduling: what `SelectWorker` asks of the scheduler.
  abbrev pub chosen : Task → List Node → Option Node
  chosen t nodes =
      let candidates = select_candidate_nodes F t nodes in pick F (score F t candidates) candidates

  costs_of :
      (t : Task) (ns : List Node)
      → Distinct (uuids ns)
      → All (λ n. score_of F (score F t ns) n ≡ cost F t n) ns
  unfolding score
  costs_of t ns d = score_from-cost t ns [] d

  Numbers-score :
      (t : Task) (ns all : List Node)
      → All (λ n. score_of F (score F t all) n ≡ cost F t n) ns
      → All (λ n. F.is_nan (cost F t n) ≡ false) ns
      → Numbers F (score F t all) ns
  Numbers-score t [] all a b = tt
  Numbers-score t (n ∷ ns) all (e, a) (f, b) = (rw e f, Numbers-score t ns all a b)

  -- No node only if the task fits on none; else a node of the cluster on which it fits, such that
  -- no node on which it fits costs less.
  abbrev pub Best : Task → List Node → Option Node → Type 0
  Best t nodes none = All (λ n. fits F t n ≡ false) nodes
  Best t nodes (some winner) =
      In winner nodes
      × (fits F t winner ≡ true)
      × All (λ n. (fits F t n ≡ false) ⊎ (F.lt (cost F t n) (cost F t winner) ≡ false)) nodes

  -- To prove something of all nodes, prove it of each.
  In-All {ℓ} : (P : Node → Type ℓ) (ns : List Node) → ((n : Node) → In n ns → P n) → All P ns
  In-All P [] h = tt
  In-All P (n ∷ ns) h = (h n (inl refl), In-All P ns (λ m i. h m (inr i)))

  module _ (law : IsOrdered F) (t : Task) (nodes : List Node) (d : Distinct (uuids nodes))
      (numbers : All (λ n. F.is_nan (cost F t n) ≡ false) nodes) where
    pick-Best :
        (candidates : List Node)
        → fitting F t nodes ≡ candidates
        → Best t nodes (pick F (score F t candidates) candidates)
    unfolding pick
    pick-Best [] e =
        In-All (λ n. fits F t n ≡ false) nodes
          λ n i. elim (Bool-cases (fits F t n)) [
            | inl c ↦ absurd (subst (In n) e (fitting-In t nodes n i c))
            | inr c ↦ c
          ]
    pick-Best (c ∷ cs) e =
        let costs =
          costs_of t (c ∷ cs) (subst (λ l. Distinct (uuids l)) e (fitting-Distinct t nodes d)) in
        let good =
          Numbers-score t (c ∷ cs) (c ∷ cs) costs
            (subst (All (λ n. F.is_nan (cost F t n) ≡ false)) e (All-fitting _ t nodes numbers)) in
        let (winner, p, i, l) = pick-Lowest F law (score F t (c ∷ cs)) c cs good in
        let at = λ (n : Node) (j : In n (c ∷ cs)).
          All-In (λ n. score_of F (score F t (c ∷ cs)) n ≡ cost F t n) (c ∷ cs) n costs j in
        subst (Best t nodes) (sym p) (
          (In-fitting F t nodes winner (subst (In winner) (sym e) i)).0,
          (In-fitting F t nodes winner (subst (In winner) (sym e) i)).1,
          In-All (λ n. (fits F t n ≡ false) ⊎ (F.lt (cost F t n) (cost F t winner) ≡ false)) nodes
              λ n j. elim (Bool-cases (fits F t n)) [
                | inr f ↦ inl f
                | inl f ↦
                    let k = subst (In n) e (fitting-In t nodes n j f) in
                    inr (
                      subst₂ (λ a b. F.lt a b ≡ false) (at n k) (at winner i)
                        (All-In _ (c ∷ cs) n l k))
              ],
        )

    -- Of a cluster in which no two nodes share an id and no cost is NaN, E-PVM chooses no node
    -- only if the task fits on none; otherwise it chooses a node of the cluster on which the task
    -- fits, and no node on which it fits costs less.
    pub epvm_choice : Best t nodes (chosen t nodes)
    epvm_choice =
        subst (λ l. Best t nodes (pick F (score F t l) l))
          (sym (select_candidate_nodes-fitting F t nodes)) (pick-Best (fitting F t nodes) refl)
