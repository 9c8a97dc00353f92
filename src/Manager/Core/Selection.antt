-- ===== src/Manager/Core/Selection.antt =====
-- internal/app/manager/manager.go: the worker that `SelectWorker` chooses with E-PVM, through the
-- cluster's nodes down to the scheduler's costs.
use netbula.Base.{
  ℕ, String, ◌≡◌, refl, subst, ◌⊎◌, inl, inr, true, false, none, some, List, [], ◌∷◌, arith, All,
  contains, Distinct, nat_eq, Option-cases,
}
use netbula.Base.Result.{Err, Result, ok, err, Result-cases}
use netbula.Base.Dict.{lookup}
use netbula.Base.Int.{ℤ}
use netbula.Floats.{Floats, IsOrdered}
use netbula.Task.{Task, TaskEvent}
use netbula.Node.{Node, Stats, stats_to_node}
use netbula.Uuids.{Uuids}
use netbula.Queue.{Queue}
use netbula.Scheduler.Epvm.{epvm, fits, cost, select_candidate_nodes, score, pick}
use netbula.Scheduler.Epvm.Picking.{In}
use netbula.Scheduler.Epvm.Choice.{uuids, chosen, Best, epvm_choice}
use netbula.Manager.State.{Stores, MappingStorage, get_worker_ids, get_worker_metadata}
use netbula.Manager.Cluster.{
  Net, HttpClientCluster, fetch_node_stats, collect_nodes, update_worker_nodes, get_nodes,
}
use netbula.Manager.Core.{Parts, Manager, refresh, choose, select_among, select_worker}

-- Each worker that is asked answers at most once, and no other does.
pub record IsArrival (N : Net) : Type 0 where
  pub arrival-Distinct : (w : N.World) (ids : List ℕ) → Distinct ids → Distinct (N.arrival w ids)
  pub arrival-contains :
      (w : N.World) (ids : List ℕ) (x : ℕ)
      → contains (N.arrival w ids) x ≡ true
      → contains ids x ≡ true

module _ (F : Floats) (N : Net) (U : Uuids) (D : Stores) where
  stats_to_node-worker_uuid :
      (w : ℕ) (name : String) (count : ℤ) (s : Stats) (n : Node)
      → stats_to_node w name count s ≡ some n
      → n.worker_uuid ≡ w
  unfolding stats_to_node
  stats_to_node-worker_uuid w name count s n h = ground arith

  -- The ids of the nodes are among those asked, and are each there once if those are.
  collect_nodes-uuids :
      (st : MappingStorage D) (cluster : HttpClientCluster N) (ws : List ℕ) (world world' : N.World)
      (nodes : List Node)
      → collect_nodes N U D st cluster ws world ≡ some (world', nodes)
      → ((x : ℕ) → contains (uuids F nodes) x ≡ true → contains ws x ≡ true)
        × (Distinct ws → Distinct (uuids F nodes))
  unfolding collect_nodes contains
  collect_nodes-uuids st cluster [] world world' nodes h = (λ x. ground arith, λ d. ground arith)
  collect_nodes-uuids st cluster (w ∷ ws) world world' nodes h =
      elim (Option-cases (lookup w cluster.worker_client_map)) [
        | inl e ↦
            let (c, d) = collect_nodes-uuids st cluster ws world world' nodes (ground arith) in
            (λ x i. ground (arith, c x), λ e. d e.1)
        | inr (client, e) ↦
            let next = (fetch_node_stats N client world).0 in
            elim (Result-cases (fetch_node_stats N client world).1) [
              | inl (f, p) ↦
                  let (c, d) = collect_nodes-uuids st cluster ws next world' nodes (ground arith) in
                  (λ x i. ground (arith, c x), λ e. d e.1)
              | inr (s, p) ↦
                  let (name, count) = get_worker_metadata U D st w in
                  elim (Option-cases (stats_to_node w name count s)) [
                    | inl q ↦ absurd (ground arith)
                    | inr (n, q) ↦ elim (Option-cases (collect_nodes N U D st cluster ws next)) [
                      | inl r ↦ absurd (ground arith)
                      | inr ((world'', rest), r) ↦
                          let id = stats_to_node-worker_uuid w name count s n q in
                          let (c, d) = collect_nodes-uuids st cluster ws next world'' rest r in
                          let shape : nodes ≡ n ∷ rest = ground arith in
                          (
                            λ x i. ground (arith, c x, id),
                            λ e. rw shape (ground (arith, c w, id, e.0), d e.1),
                          )
                    ]
                  ]
            ]
      ]

module _ (F : Floats) (N : Net) (U : Uuids) (D : Stores) (Q : Queue TaskEvent) where
  -- The manager as it is set up, with E-PVM.
  abbrev pub epvm_parts : Parts
  epvm_parts = record { uuids = U; stores = D; net = N; queue = Q; scheduler = epvm F }

  refreshed :
      (m n : Manager epvm_parts)
      → refresh epvm_parts m ≡ some n
      → (world : N.World) × (collect_nodes N U D m.state m.worker_cluster
            (N.arrival m.world m.state.workers)
            m.world
          ≡ some (world, n.worker_cluster.worker_nodes))
  unfolding refresh update_worker_nodes get_worker_ids
  refreshed m n h =
      let ids = N.arrival m.world m.state.workers in
      elim (Option-cases (collect_nodes N U D m.state m.worker_cluster ids m.world)) [
        | inl e ↦ absurd (ground arith)
        | inr ((world, nodes), e) ↦ (world, ground arith)
      ]

  -- The answer is an error only if the task fits on no node that answered; otherwise it is the id
  -- of such a node, registered, on which the task fits and than which none on which it fits costs
  -- less.
  abbrev pub Placed : Manager epvm_parts → Task → List Node → Result ℕ → Type 0
  Placed m t nodes (err e) = All (λ n. fits F t n ≡ false) nodes
  Placed m t nodes (ok w) =
      (winner : Node) × (winner.worker_uuid ≡ w)
      × (contains m.state.workers w ≡ true)
      × Best F t nodes (some winner)

  In-uuids : (n : Node) (ns : List Node) → In n ns → contains (uuids F ns) n.worker_uuid ≡ true
  unfolding contains
  In-uuids n [] i = absurd i
  In-uuids n (k ∷ ns) (inl e) = ground arith
  In-uuids n (k ∷ ns) (inr i) = ground (arith, In-uuids n ns i)

  select_among-chosen :
      (m m' : Manager epvm_parts) (t : Task) (nodes : List Node) (r : Result ℕ)
      → select_among epvm_parts m t (select_candidate_nodes F t nodes) ≡ some (m', r)
      → ((e : Err) × (r ≡ err e) × (chosen F t nodes ≡ none))
        ⊎ ((n : Node) × (r ≡ ok n.worker_uuid) × (chosen F t nodes ≡ some n))
  unfolding select_among choose pick
  select_among-chosen m m' t nodes r h = with_candidates (select_candidate_nodes F t nodes) h
    where
      with_candidates :
          (cs : List Node)
          → select_among epvm_parts m t cs ≡ some (m', r)
          → ((e : Err) × (r ≡ err e) × (pick F (score F t cs) cs ≡ none))
            ⊎ ((n : Node) × (r ≡ ok n.worker_uuid) × (pick F (score F t cs) cs ≡ some n))
      with_candidates [] p = elim (Result-cases r) [
        | inl (e, q) ↦ inl (e, q, refl)
        | inr (w, q) ↦ absurd (ground arith)
      ]
      with_candidates (c ∷ cs) p = elim (Option-cases (pick F (score F t (c ∷ cs)) (c ∷ cs))) [
        | inl q ↦ absurd (ground arith)
        | inr (n, q) ↦ inr (n, ground arith, q)
      ]

  -- The result of the choice, in the terms of the one who asked.
  placed :
      (m : Manager epvm_parts) (t : Task) (nodes : List Node) (r : Result ℕ)
      → ((x : ℕ) → contains (uuids F nodes) x ≡ true → contains m.state.workers x ≡ true)
      → Best F t nodes (chosen F t nodes)
      → ((e : Err) × (r ≡ err e) × (chosen F t nodes ≡ none))
        ⊎ ((n : Node) × (r ≡ ok n.worker_uuid) × (chosen F t nodes ≡ some n))
      → Placed m t nodes r
  placed m t nodes r among best (inl (e, p, q)) = rw p (subst (Best F t nodes) q best)
  placed m t nodes r among best (inr (n, p, q)) =
      let top = subst (Best F t nodes) q best in
      rw p (n, refl, among n.worker_uuid (In-uuids n nodes top.0), top)

  -- Let each worker be registered once and answer at most once, and no cost of a node that answered
  -- be NaN. A call of `SelectWorker` with E-PVM that does not panic then fails only if the task fits
  -- on no node that answered. Otherwise it chooses a registered worker whose node answered and fits
  -- the task, and no node that answered and fits costs less.
  pub select_worker-Placed :
      (law : IsOrdered F) (order : IsArrival N) (m n m' : Manager epvm_parts) (t : Task)
      (r : Result ℕ)
      → Distinct m.state.workers
      → refresh epvm_parts m ≡ some n
      → All (λ k. F.is_nan (cost F t k) ≡ false) n.worker_cluster.worker_nodes
      → select_worker epvm_parts m t ≡ some (m', r)
      → Placed m t n.worker_cluster.worker_nodes r
  unfolding select_worker get_nodes
  select_worker-Placed law order m n m' t r once h numbers s =
      let ids = m.state.workers in
      let nodes = n.worker_cluster.worker_nodes in
      let (world, c) = refreshed m n h in
      let (among, distinct) =
        collect_nodes-uuids F N U D m.state m.worker_cluster (N.arrival m.world ids) m.world world
          nodes c in
      let best =
        epvm_choice F law t nodes (distinct (order.arrival-Distinct m.world ids once)) numbers in
      placed m t nodes r (λ x i. order.arrival-contains m.world ids x (among x i)) best
        (select_among-chosen n m' t nodes r (ground arith))
