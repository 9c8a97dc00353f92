-- ===== src/Scheduler/Epvm/Picking.antt =====
-- internal/scheduler/epvm.go: the nodes that `SelectCandidateNodes` keeps, and the loop of `Pick`.
use netbula.Base.{
  ℕ, ◌≡◌, refl, sym, subst, ◌∙◌, ◌⊎◌, inl, inr, true, false, some, List, [], ◌∷◌, ◌++◌, arith, All,
  nat_eq, if◌then◌else◌, Bool-cases,
}
use mathlib.Core.List.{append-nil, append_assoc}
use netbula.Base.Dict.{Dict}
use netbula.Floats.{Floats, IsOrdered}
use netbula.Task.{Task}
use netbula.Node.{Node}
use netbula.Scheduler.Epvm.{fits, select_from, select_candidate_nodes, score_of, pick_from, pick}

-- A node is in the list.
abbrev pub In : Node → List Node → Type 0
In n [] = ⊥
In n (m ∷ ns) = (n ≡ m) ⊎ In n ns

module _ (F : Floats) where
  -- The nodes that fit, in their order.
  abbrev pub fitting : Task → List Node → List Node
  fitting t [] = []
  fitting t (node ∷ nodes) = if fits F t node then node ∷ fitting t nodes else fitting t nodes

  -- No node of the list has a lower score.
  abbrev pub Lowest : Dict ℕ ℕ → ℕ → List Node → Type 0
  Lowest scores best nodes = All (λ n. F.lt (score_of F scores n) best ≡ false) nodes

  abbrev pub Numbers : Dict ℕ ℕ → List Node → Type 0
  Numbers scores nodes = All (λ n. F.is_nan (score_of F scores n) ≡ false) nodes

  module _ (law : IsOrdered F) (scores : Dict ℕ ℕ) where
    abbrev start : Node → List Node → Node
    start best nodes = pick_from F scores (score_of F scores best) best nodes

    pub start-cons :
        (best node : Node) (nodes : List Node)
        → start best (node ∷ nodes) ≡ (
            if F.lt (score_of F scores node) (score_of F scores best)
            then start node nodes
            else start best nodes)
    unfolding pick_from
    start-cons best node nodes = ground arith

    pub start-nil : (best : Node) → best ≡ start best []
    unfolding pick_from
    start-nil best = refl

    -- Among `best` and the nodes this one has no lower rival.
    abbrev Chosen : Node → List Node → Node → Type 0
    Chosen best nodes winner =
        (F.lt (score_of F scores best) (score_of F scores winner) ≡ false)
        × Lowest scores (score_of F scores winner) nodes
        × In winner (best ∷ nodes)

    pub start-Chosen :
        (best : Node) (nodes : List Node)
        → F.is_nan (score_of F scores best) ≡ false
        → Numbers scores nodes
        → Chosen best nodes (start best nodes)
    start-Chosen best [] b ns =
        subst (Chosen best []) (start-nil best) (law.lt_irrefl _, tt, inl refl)
    start-Chosen best (node ∷ nodes) b (n, ns) =
        elim (Bool-cases (F.lt (score_of F scores node) (score_of F scores best))) [
          | inl c ↦
              let (h, l, o) = start-Chosen node nodes n ns in
              subst (Chosen best (node ∷ nodes)) (sym (start-cons best node nodes ∙ ground arith))
                (law.lt_neg_trans _ _ _ n (law.lt_asymm _ _ c) h, (h, l), inr o)
          | inr c ↦
              let (h, l, o) = start-Chosen best nodes b ns in
              subst (Chosen best (node ∷ nodes)) (sym (start-cons best node nodes ∙ ground arith)) (
                h,
                (law.lt_neg_trans _ _ _ b c h, l),
                elim o [ inl e ↦ inl e | inr m ↦ inr (inr m) ],
              )
        ]

    pub pick-Lowest :
        (node : Node) (nodes : List Node)
        → Numbers scores (node ∷ nodes)
        → (winner : Node) × (pick F scores (node ∷ nodes) ≡ some winner)
          × In winner (node ∷ nodes)
          × Lowest scores (score_of F scores winner) (node ∷ nodes)
    unfolding pick
    pick-Lowest node nodes (n, ns) =
        let (h, l, o) = start-Chosen node nodes n ns in (start node nodes, refl, o, (h, l))

  pub select_from-fitting :
      (t : Task) (nodes acc : List Node) → select_from F t nodes acc ≡ acc ++ fitting t nodes
  unfolding select_from
  select_from-fitting t [] acc = sym (append-nil acc)
  select_from-fitting t (node ∷ nodes) acc = elim (Bool-cases (fits F t node)) [
    | inl c ↦ rw c (
        select_from-fitting t nodes (acc ++ node ∷ [])
        ∙ append_assoc acc (node ∷ []) (fitting t nodes))
    | inr c ↦ rw c (select_from-fitting t nodes acc)
  ]

  -- `SelectCandidateNodes` keeps the nodes whose free disk holds the task, in their order.
  pub select_candidate_nodes-fitting :
      (t : Task) (nodes : List Node) → select_candidate_nodes F t nodes ≡ fitting t nodes
  unfolding select_candidate_nodes
  select_candidate_nodes-fitting t nodes = select_from-fitting t nodes []

  pub In-fitting :
      (t : Task) (nodes : List Node) (n : Node)
      → In n (fitting t nodes)
      → In n nodes × (fits F t n ≡ true)
  In-fitting t [] n m = absurd m
  In-fitting t (node ∷ nodes) n m = ground (arith, In-fitting t nodes n)
