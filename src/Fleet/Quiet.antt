-- ===== src/Fleet/Quiet.antt =====
-- internal/app/manager/manager.go: what choosing a worker leaves as it is.
use netbula.Base.{ℕ, ◌≡◌, ap, ◌∙◌, inl, inr, some, List, [], ◌∷◌, arith, nat_eq, Option-cases}
use netbula.Base.Result.{Result, Result-cases}
use netbula.Base.Dict.{lookup}
use netbula.Task.{Task, TaskEvent}
use netbula.Node.{Node, stats_to_node}
use netbula.Worker
use netbula.Manager.State.{MappingStorage, get_worker_ids, get_worker_metadata, get_assigned_worker}
use netbula.Manager.Cluster.{
  HttpClientCluster, fetch_node_stats, collect_nodes, update_worker_nodes, get_nodes,
}
use netbula.Manager.Core.{
  Parts, Manager, refresh, choose, select_among, select_worker, determine_worker,
}
use netbula.Fleet.{Fleet, IsServing}

module _ (P : Parts) (W : netbula.Worker.Parts) (F : Fleet P.net W)
    (serving : IsServing P.net P.uuids W F) where
  -- The manager's state, its clients and the workers are the same.
  pub record Quiet (m n : Manager P) : Type 0 where
    pub state : n.state ≡ m.state
    pub clients : n.worker_cluster.worker_client_map ≡ m.worker_cluster.worker_client_map
    pub workers : (v : ℕ) → F.worker_at n.world v ≡ F.worker_at m.world v

  pub Quiet-trans : (a b c : Manager P) → Quiet a b → Quiet b c → Quiet a c
  Quiet-trans a b c p q = record {
    state = q.state ∙ p.state;
    clients = q.clients ∙ p.clients;
    workers = λ v. q.workers v ∙ p.workers v;
  }

  fetch_node_stats-worker_at :
      (client : P.net.Client) (world : P.net.World) (v : ℕ)
      → F.worker_at (fetch_node_stats P.net client world).0 v ≡ F.worker_at world v
  unfolding fetch_node_stats
  fetch_node_stats-worker_at client world v =
      serving.request-get client "http://worker/stats" world v

  collect_nodes-worker_at :
      (st : MappingStorage P.stores) (cluster : HttpClientCluster P.net) (ws : List ℕ)
      (world world' : P.net.World) (nodes : List Node) (v : ℕ)
      → collect_nodes P.net P.uuids P.stores st cluster ws world ≡ some (world', nodes)
      → F.worker_at world' v ≡ F.worker_at world v
  unfolding collect_nodes
  collect_nodes-worker_at st cluster [] world world' nodes v h =
      let same : world' ≡ world = ground arith in ap (λ x. F.worker_at x v) same
  collect_nodes-worker_at st cluster (w ∷ ws) world world' nodes v h =
      elim (Option-cases (lookup w cluster.worker_client_map)) [
        | inl e ↦ collect_nodes-worker_at st cluster ws world world' nodes v (ground arith)
        | inr (client, e) ↦
            let next = (fetch_node_stats P.net client world).0 in
            let quiet = fetch_node_stats-worker_at client world v in
            elim (Result-cases (fetch_node_stats P.net client world).1) [
              | inl (f, p) ↦
                  collect_nodes-worker_at st cluster ws next world' nodes v (ground arith) ∙ quiet
              | inr (s, p) ↦
                  let (name, count) = get_worker_metadata P.uuids P.stores st w in
                  elim (Option-cases (stats_to_node w name count s)) [
                    | inl q ↦ absurd (ground arith)
                    | inr (n, q) ↦
                        elim (Option-cases
                          (collect_nodes P.net P.uuids P.stores st cluster ws next)) [
                            | inl r ↦ absurd (ground arith)
                            | inr ((world'', rest), r) ↦
                                let same : world' ≡ world'' = ground arith in
                                ap (λ x. F.worker_at x v) same
                                ∙ collect_nodes-worker_at st cluster ws next world'' rest v r
                                ∙ quiet
                          ]
                  ]
            ]
      ]

  refresh-Quiet : (m n : Manager P) → refresh P m ≡ some n → Quiet m n
  unfolding refresh update_worker_nodes
  refresh-Quiet m n h =
      let ids = P.net.arrival m.world (get_worker_ids P.uuids P.stores m.state) in
      elim (Option-cases
        (collect_nodes P.net P.uuids P.stores m.state m.worker_cluster ids m.world)) [
          | inl e ↦ absurd (ground arith)
          | inr ((world, nodes), e) ↦
              let same : n.world ≡ world = ground arith in
              record {
                state = ground arith;
                clients = ground arith;
                workers = λ v.
                    ap (λ x. F.worker_at x v) same
                    ∙ collect_nodes-worker_at m.state m.worker_cluster ids m.world world nodes v e;
              }
        ]

  select_among-Quiet :
      (m n : Manager P) (t : Task) (candidates : List Node) (r : Result ℕ)
      → select_among P m t candidates ≡ some (n, r)
      → Quiet m n
  unfolding select_among choose
  select_among-Quiet m n t [] r h =
      let same : n.world ≡ m.world = ground arith in
      record {
        state = ground arith;
        clients = ground arith;
        workers = λ v. ap (λ x. F.worker_at x v) same;
      }
  select_among-Quiet m n t (c ∷ candidates) r h =
      let same : n.world ≡ m.world = ground arith in
      record {
        state = ground arith;
        clients = ground arith;
        workers = λ v. ap (λ x. F.worker_at x v) same;
      }

  pub determine_worker-Quiet :
      (m n : Manager P) (te : TaskEvent) (r : Result ℕ)
      → determine_worker P m te ≡ some (n, r)
      → Quiet m n
  unfolding determine_worker select_worker
  determine_worker-Quiet m n te r h =
      elim (Option-cases (get_assigned_worker P.uuids P.stores m.state te.task.id).0) [
        | inr (w, g) ↦
            let same : n.world ≡ m.world = ground arith in
            record {
              state = ground arith;
              clients = ground arith;
              workers = λ v. ap (λ x. F.worker_at x v) same;
            }
        | inl g ↦ elim (Option-cases (refresh P m)) [
          | inl e ↦ absurd (ground arith)
          | inr (k, e) ↦ Quiet-trans m k n (refresh-Quiet m k e) (
              select_among-Quiet k n te.task
                (P.scheduler.select_candidate_nodes te.task (get_nodes P.net k.worker_cluster)) r
                (ground arith))
        ]
      ]
