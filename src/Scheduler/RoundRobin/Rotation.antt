-- ===== src/Scheduler/RoundRobin/Rotation.antt =====
-- internal/scheduler/round_robin.go: which node is chosen.
use netbula.Base.{
  ℕ, zero, suc, ◌+◌, ◌%◌, ◌<◌, ◌≡◌, refl, ◌∙◌, false, some, List, [], ◌∷◌, arith, All, length,
  get_elem?, contains, Distinct, ◌==◌, nat_eq, if◌then◌else◌,
}
use netbula.Base.Dict.{Dict, insert, get_or, get_or-insert}
use netbula.Floats.{Floats, IsOrdered}
use netbula.Task.{Task}
use netbula.Node.{Node}
use netbula.Scheduler.Epvm.{score_of}
use netbula.Scheduler.Epvm.Choice.{uuids}
use netbula.Scheduler.RoundRobin.{RoundRobin, score_from, score, pick_from, pick}

module _ (F : Floats) where
  abbrev low : ℕ
  low = F.literal "0.1"

  abbrev high : ℕ
  high = F.literal "1.0"

  abbrev High : Dict ℕ ℕ → List Node → Type 0
  High scores ns = All (λ n. score_of F scores n ≡ high) ns

  -- The node at this index has the low score, all others the high one.
  abbrev Marked : Dict ℕ ℕ → ℕ → List Node → Type 0
  Marked scores j [] = Unit
  Marked scores zero (n ∷ ns) = (score_of F scores n ≡ low) × High scores ns
  Marked scores (suc j) (n ∷ ns) = (score_of F scores n ≡ high) × Marked scores j ns

  score_from-other :
      (k i : ℕ) (ns : List Node) (scores : Dict ℕ ℕ) (u : ℕ)
      → contains (uuids F ns) u ≡ false
      → get_or u 0 (score_from F k i ns scores) ≡ get_or u 0 scores
  unfolding score_from contains
  score_from-other k i [] scores u h = refl
  score_from-other k i (n ∷ ns) scores u h =
      let v = if i == k then low else high in
      ground (
        arith,
        score_from-other k (suc i) ns (insert n.worker_uuid v scores) u,
        get_or-insert u n.worker_uuid 0 v scores,
      )

  score_from-head :
      (k i : ℕ) (n : Node) (ns : List Node) (scores : Dict ℕ ℕ)
      → contains (uuids F ns) n.worker_uuid ≡ false
      → score_of F (score_from F k i (n ∷ ns) scores) n ≡ (if i == k then low else high)
  unfolding score_from
  score_from-head k i n ns scores h =
      let v = if i == k then low else high in
      score_from-other k (suc i) ns (insert n.worker_uuid v scores) n.worker_uuid h
      ∙ ground (arith, get_or-insert n.worker_uuid n.worker_uuid 0 v scores)

  score_from-High :
      (k i : ℕ) (ns : List Node) (scores : Dict ℕ ℕ)
      → k < i
      → Distinct (uuids F ns)
      → High (score_from F k i ns scores) ns
  unfolding score_from
  score_from-High k i [] scores h d = tt
  score_from-High k i (n ∷ ns) scores h d = (
    unfold score_from in (score_from-head k i n ns scores d.0 ∙ ground arith),
    score_from-High k (suc i) ns (insert n.worker_uuid (if i == k then low else high) scores)
        (omega arith) d.1,
  )

  score_from-Marked :
      (j k i : ℕ) (ns : List Node) (scores : Dict ℕ ℕ)
      → k ≡ i + j
      → Distinct (uuids F ns)
      → Marked (score_from F k i ns scores) j ns
  unfolding score_from
  score_from-Marked j k i [] scores h d = tt
  score_from-Marked zero k i (n ∷ ns) scores h d = (
    score_from-head k i n ns scores d.0 ∙ ground arith,
    score_from-High k (suc i) ns (insert n.worker_uuid (if i == k then low else high) scores)
        (omega arith) d.1,
  )
  score_from-Marked (suc j) k i (n ∷ ns) scores h d = (
    score_from-head k i n ns scores d.0 ∙ ground arith,
    score_from-Marked j k (suc i) ns (insert n.worker_uuid (if i == k then low else high) scores)
        (omega arith) d.1,
  )

  module _ (law : IsOrdered F) (scores : Dict ℕ ℕ) where
    pick_from-low :
        (best : Node) (ns : List Node) → High scores ns → pick_from F scores best low ns ≡ best
    unfolding pick_from
    pick_from-low best [] h = refl
    pick_from-low best (n ∷ ns) h =
        ground (arith, law.lt_asymm low high law.lt_tenth, pick_from-low best ns h.1)

    pick_from-high :
        (j : ℕ) (best : Node) (ns : List Node)
        → j < length ns
        → Marked scores j ns
        → some (pick_from F scores best high ns) ≡ get_elem? ns j
    unfolding pick_from
    pick_from-high j best [] h m = elim h [ ]
    pick_from-high zero best (n ∷ ns) h m = ground (arith, law.lt_tenth, pick_from-low n ns m.1)
    pick_from-high (suc j) best (n ∷ ns) h m =
        ground (arith, law.lt_irrefl high, pick_from-high j best ns (omega arith) m.1)

    pick-Marked :
        (j : ℕ) (ns : List Node)
        → j < length ns
        → Marked scores j ns
        → pick F scores ns ≡ get_elem? ns j
    unfolding pick
    pick-Marked j [] h m = elim h [ ]
    pick-Marked zero (n ∷ ns) h m = ground (arith, pick_from-low n ns m.1)
    pick-Marked (suc j) (n ∷ ns) h m = ground (arith, pick_from-high j n ns (omega arith) m.1)

  -- On a cluster that is not empty and in which no two nodes share an id, `Score` never panics and
  -- `Pick` then takes the node after the last one chosen, cyclically, which becomes the last one.
  pub round_robin_turn :
      (law : IsOrdered F) (r : RoundRobin) (t : Task) (n : Node) (ns : List Node)
      → Distinct (uuids F (n ∷ ns))
      → let next = (r.last_worker_idx + 1) % length (n ∷ ns) in
        (scores : Dict ℕ ℕ) × (score F r t (n ∷ ns)
          ≡ some (record r { last_worker_idx = next }, scores))
        × (pick F scores (n ∷ ns) ≡ get_elem? (n ∷ ns) next)
        × (next < length (n ∷ ns))
  unfolding score
  round_robin_turn law r t n ns d =
      let next = (r.last_worker_idx + 1) % length (n ∷ ns) in
      let scores = score_from F next 0 (n ∷ ns) [] in
      (
        scores,
        refl,
        pick-Marked law scores next (n ∷ ns) (omega arith)
            (score_from-Marked next next 0 (n ∷ ns) [] (omega arith) d),
        omega arith,
      )
