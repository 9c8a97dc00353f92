-- ===== src/Manager/Core/Totality.antt =====
-- internal/app/manager/manager.go: `SendWork` and its panics.
use netbula.Base.{
  ℕ, String, ◌≡◌, ◌≢◌, refl, inl, inr, Option, some, List, [], ◌∷◌, ◌++◌, arith, nat_eq,
  Option-cases,
}
use netbula.Base.Result.{Err, Result, ok, Result-cases}
use netbula.Base.Dict.{Dict, lookup}
use netbula.Base.Int.{ℤ}
use netbula.Task.{Task, TaskEvent}
use netbula.Node.{Node, Stats, stats_to_node}
use netbula.Queue.{IsFifo}
use netbula.Manager.State.{
  MappingStorage, get_assigned_worker, get_worker_ids, update_task_event, get_worker_metadata,
}
use netbula.Manager.Cluster.Changes.{detect_node_changes}
use netbula.Manager.Cluster.{
  HttpClientCluster, fetch_node_stats, collect_nodes, update_worker_nodes, get_nodes,
}
use netbula.Manager.Core.{
  Parts, Manager, Attempt, refresh, choose, select_among, select_worker, determine_worker,
  attempt_start, attempt, send_work,
}

module _ (P : Parts) where
  -- Statistics that can be decoded have the load of at least one processor.
  abbrev pub Measured : Type 0
  Measured = (body : String) (s : Stats) → P.net.decode_stats body ≡ ok s → s.cpu_percents ≢ []

  -- The scheduler chooses a node where there is a candidate.
  abbrev pub Picks : Type 0
  Picks =
      (s : P.scheduler.State) (t : Task) (c : Node) (cs : List Node)
      → (s' : P.scheduler.State) × (scores : Dict ℕ ℕ) × (n : Node) × (P.scheduler.score s t
            (c ∷ cs)
          ≡ some (s', scores))
        × (P.scheduler.pick scores (c ∷ cs) ≡ some n)

  module _ (measured : Measured) (picks : Picks) where
    fetch_node_stats-measured :
        (client : P.net.Client) (world : P.net.World) (s : Stats)
        → (fetch_node_stats P.net client world).1 ≡ ok s
        → s.cpu_percents ≢ []
    unfolding fetch_node_stats
    fetch_node_stats-measured client world s h =
        elim (Result-cases (P.net.request client "GET" "http://worker/stats" "" world).1) [
          | inl (e, p) ↦ absurd (ground arith)
          | inr (resp, p) ↦ ground (arith, measured resp.body s)
        ]

    stats_to_node-total :
        (w : ℕ) (name : String) (count : ℤ) (s : Stats)
        → s.cpu_percents ≢ []
        → (n : Node) × (stats_to_node w name count s ≡ some n)
    unfolding stats_to_node
    stats_to_node-total w name count s h = elim (Option-cases (stats_to_node w name count s)) [
      | inl e ↦ absurd (ground arith)
      | inr (n, e) ↦ (n, e)
    ]

    collect_nodes-total :
        (st : MappingStorage P.stores) (cluster : HttpClientCluster P.net) (ws : List ℕ)
        (world : P.net.World)
        → (r : P.net.World × List Node) × (collect_nodes P.net P.uuids P.stores st cluster ws world
            ≡ some r)
    unfolding collect_nodes
    collect_nodes-total st cluster [] world = ((world, []), refl)
    collect_nodes-total st cluster (w ∷ ws) world =
        elim (Option-cases (lookup w cluster.worker_client_map)) [
          | inl e ↦ let (r, f) = collect_nodes-total st cluster ws world in (r, ground arith)
          | inr (client, e) ↦
              let next = (fetch_node_stats P.net client world).0 in
              let (r, f) = collect_nodes-total st cluster ws next in
              elim (Result-cases (fetch_node_stats P.net client world).1) [
                | inl (x, p) ↦ (r, ground arith)
                | inr (s, p) ↦
                    let (name, count) = get_worker_metadata P.uuids P.stores st w in
                    let (n, q) =
                      stats_to_node-total w name count s
                        (fetch_node_stats-measured client world s p) in
                    ((r.0, n ∷ r.1), ground arith)
              ]
        ]

    refresh-total : (m : Manager P) → (n : Manager P) × (refresh P m ≡ some n)
    unfolding refresh update_worker_nodes
    refresh-total m =
        let ids = P.net.arrival m.world (get_worker_ids P.uuids P.stores m.state) in
        let (r, f) = collect_nodes-total m.state m.worker_cluster ids m.world in
        (
          record m {
            worker_cluster = record m.worker_cluster {
              worker_nodes = r.1;
              notices =
                  m.worker_cluster.notices
                  ++ detect_node_changes (get_nodes P.net m.worker_cluster) r.1;
            };
            world = r.0;
          },
          ground arith,
        )

    select_among-total :
        (m : Manager P) (t : Task) (candidates : List Node)
        → (r : Manager P × Result ℕ) × (select_among P m t candidates ≡ some r)
    unfolding select_among choose
    select_among-total m t [] = (_, refl)
    select_among-total m t (c ∷ candidates) =
        let (s, scores, n, p, q) = picks m.scheduler t c candidates in
        ((record m { scheduler = s }, ok n.worker_uuid), ground arith)

    determine_worker-total :
        (m : Manager P) (te : TaskEvent)
        → (r : Manager P × Result ℕ) × (determine_worker P m te ≡ some r)
    unfolding determine_worker select_worker
    determine_worker-total m te =
        let (n, e) = refresh-total m in
        let candidates =
          P.scheduler.select_candidate_nodes te.task (get_nodes P.net n.worker_cluster) in
        let (r, f) = select_among-total n te.task candidates in
        elim (Option-cases (get_assigned_worker P.uuids P.stores m.state te.task.id).0) [
          | inl g ↦ (r, ground arith)
          | inr (w, g) ↦ ((m, ok w), ground arith)
        ]

    attempt_start-total :
        (m : Manager P) (te : TaskEvent) → (a : Attempt P) × (attempt_start P m te ≡ some a)
    unfolding attempt_start
    attempt_start-total m te =
        let ((n, r), e) = determine_worker-total m te in
        elim (Option-cases (attempt_start P m te)) [ inl f ↦ absurd (ground arith) | inr a ↦ a ]

    attempt-total : (m : Manager P) (te : TaskEvent) → (a : Attempt P) × (attempt P m te ≡ some a)
    unfolding attempt
    attempt-total m te =
        let n : Manager P = record m {
          state = (update_task_event P.uuids P.stores m.state te).0;
        } in
        let (a, e) = attempt_start-total n te in
        elim (Option-cases (attempt P m te)) [ inl f ↦ absurd (ground arith) | inr r ↦ r ]

    -- If the scheduler picks a node wherever there is a candidate and the statistics of a worker
    -- have the load of at least one processor, then `SendWork` never panics.
    pub send_work-total :
        (fifo : IsFifo P.queue) (m : Manager P)
        → (r : Manager P × Option TaskEvent × Option Err) × (send_work P m ≡ some r)
    unfolding send_work
    send_work-total fifo m =
        let l = fifo.len-length m.pending in
        let d = fifo.dequeue-head? m.pending in
        elim (Option-cases (P.queue.dequeue m.pending).0) [
          | inl q ↦ elim (Option-cases (send_work P m)) [
            | inl f ↦ absurd (ground arith)
            | inr r ↦ r
          ]
          | inr (te, q) ↦
              let (a, e) =
                attempt-total (record m { pending = (P.queue.dequeue m.pending).1 }) te in
              elim (Option-cases (send_work P m)) [ inl f ↦ absurd (ground arith) | inr r ↦ r ]
        ]
