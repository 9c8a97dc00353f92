-- ===== src/Fleet/Delivery.antt =====
-- internal/app/manager/manager.go and internal/app/worker/handler.go: what has reached a worker when
-- `SendWork` reports no error.
use netbula.Base.{
  ℕ, ◌≡◌, ◌≢◌, ap, subst, ◌∙◌, inl, inr, none, some, List, [], ◌∷◌, ◌++◌, arith, nat_eq, string_eq,
  Option-cases,
}
use netbula.Base.Result.{ok, Result-cases}
use netbula.Base.Dict.{lookup}
use netbula.Task.{scheduled, completed, Task, TaskEvent}
use netbula.Queue.{IsFifo}
use netbula.Store.{IsLawful}
use netbula.Worker
use netbula.Worker.{Worker, add_task}
use netbula.Worker.Handlers.{start_task_handler}
use netbula.Manager.State.{
  MappingStorage, link_task, get_task, get_assigned_worker, assign_task_to_worker,
}
use netbula.Manager.Cluster.{HttpClientCluster, post_task, send_task}
use netbula.Manager.Core.{Parts, Manager, determine_worker, attempt_send, attempt_start, send_work}
use netbula.Manager.State.Assign.{assigned_parts}
use netbula.Manager.Core.Success.{attempt-start, send_work-attempt}
use netbula.Fleet.{Fleet, IsServing, Connected}
use netbula.Fleet.Quiet.{Quiet, determine_worker-Quiet}

module _ (P : Parts) (W : netbula.Worker.Parts) (F : Fleet P.net W)
    (serving : IsServing P.net P.uuids W F) where
  -- From one world to the next, this worker is given the task and no other worker changes.
  pub record Given (w : ℕ) (t : Task) (a b : P.net.World) : Type 0 where
    pub given : F.worker_at b w ≡ add_task W (F.worker_at a w) t
    pub others : (v : ℕ) → v ≢ w → F.worker_at b v ≡ F.worker_at a v

  post_task-Given :
      (client : P.net.Client) (te : TaskEvent) (a : P.net.World) (t : Task)
      → (post_task P.net client te a).1 ≡ ok t
      → Given (F.reach client) te.task a (post_task P.net client te a).0
  unfolding post_task start_task_handler
  post_task-Given client te a t h = elim (Result-cases (P.net.encode_event te)) [
    | inl (e, p) ↦ absurd (ground arith)
    | inr (body, p) ↦
        elim (Result-cases (P.net.request client "POST" "http://worker/tasks" body a).1) [
          | inl (e, q) ↦ absurd (ground arith)
          | inr (resp, q) ↦
              let same : (post_task P.net client te a).0
                  ≡ (P.net.request client "POST" "http://worker/tasks" body a).0 =
                ground arith in
              record {
                given =
                    ap (λ x. F.worker_at x (F.reach client)) same
                    ∙ (serving.request-post client te body a resp p q).0;
                others = λ v n.
                    ap (λ x. F.worker_at x v) same
                    ∙ serving.request-other client "POST" "http://worker/tasks" body a v n;
              }
        ]
  ]

  send_task-Given :
      (cluster : HttpClientCluster P.net) (w : ℕ) (te : TaskEvent) (a : P.net.World) (t : Task)
      → Connected F cluster
      → (send_task P.net cluster w te a).1 ≡ ok t
      → Given w te.task a (send_task P.net cluster w te a).0
  unfolding send_task
  send_task-Given cluster w te a t connected h =
      elim (Option-cases (lookup w cluster.worker_client_map)) [
        | inl e ↦ absurd (ground arith)
        | inr (client, e) ↦ elim (Result-cases (post_task P.net client te a).1) [
          | inl (f, p) ↦ absurd (ground arith)
          | inr (x, p) ↦
              let same : (post_task P.net client te a).0 ≡ (send_task P.net cluster w te a).0 =
                ground arith in
              subst (Given w te.task a) same (
                subst (λ u. Given u te.task a (post_task P.net client te a).0)
                  (connected w client e) (post_task-Given client te a x p))
        ]
      ]

  -- `AssignTaskToWorker` and `SendTask` both succeeded.
  pub record Sent (m n : Manager P) (te te' : TaskEvent) (w : ℕ) : Type 0 where
    pub task : te'.task ≡ record te.task { state = scheduled }
    pub assigned :
        assign_task_to_worker P.uuids P.stores m.state te.task w
        ≡ (n.state, ok (record te.task { state = scheduled }))
    pub reached : Given w (record te.task { state = scheduled }) m.world n.world

  attempt_send-Sent :
      (m n : Manager P) (te te' : TaskEvent) (w : ℕ)
      → Connected F m.worker_cluster
      → attempt_send P m te w ≡ (n, te', none)
      → Sent m n te te' w
  unfolding attempt_send
  attempt_send-Sent m n te te' w connected h =
      let (state, answer) = assign_task_to_worker P.uuids P.stores m.state te.task w in
      elim (Result-cases (assign_task_to_worker P.uuids P.stores m.state te.task w).1) [
        | inl (e, p) ↦ absurd (ground arith)
        | inr (t, p) ↦
            let (db, wdb, x, y, z, same_task) =
              assigned_parts P.uuids P.stores m.state state te.task t w (ground arith) in
            let sent : TaskEvent = record te { task = t } in
            elim (Result-cases (send_task P.net m.worker_cluster w sent m.world).1) [
              | inl (e, q) ↦ absurd (ground arith)
              | inr (u, q) ↦
                  let same : (send_task P.net m.worker_cluster w sent m.world).0 ≡ n.world =
                    ground arith in
                  record {
                    task = ground arith;
                    assigned = ground arith;
                    reached = subst (Given w (record te.task { state = scheduled }) m.world) same (
                        subst
                          (λ k.
                            Given w k m.world (send_task P.net m.worker_cluster w sent m.world).0)
                          same_task
                          (send_task-Given m.worker_cluster w sent m.world u connected q));
                  }
            ]
      ]

  -- After the choice of the worker, which changes neither workers nor state.
  attempt_start-Sent :
      (m n : Manager P) (te te' : TaskEvent)
      → Connected F m.worker_cluster
      → attempt_start P m te ≡ some (n, te', none)
      → (k : Manager P) × (w : ℕ) × Quiet P W F serving m k × Sent k n te te' w
  unfolding attempt_start
  attempt_start-Sent m n te te' connected h = elim (Option-cases (determine_worker P m te)) [
    | inl e ↦ absurd (ground arith)
    | inr ((k, r), e) ↦ elim (Result-cases r) [
      | inl (f, q) ↦ absurd (ground arith)
      | inr (w, q) ↦
          let quiet = determine_worker-Quiet P W F serving m k te r e in
          (
            k,
            w,
            quiet,
            attempt_send-Sent k n te te' w
                (λ v client l. connected v client (ground (arith, quiet.clients))) (ground arith),
          )
    ]
  ]

  module _ {TaskOk : P.stores.tasks.State → Type 0} {LinkOk : P.stores.task_workers.State → Type 0}
      (tasks : IsLawful P.stores.tasks TaskOk) (links : IsLawful P.stores.task_workers LinkOk)
      (fifo : IsFifo P.queue) where
    assigned_stored :
        (st st' : MappingStorage P.stores) (t t' : Task) (w : ℕ)
        → TaskOk st.task_db
        → LinkOk st.task_worker_db
        → assign_task_to_worker P.uuids P.stores st t w ≡ (st', ok t')
        → (get_task P.uuids P.stores st' t.id ≡ (some t', none))
          × (get_assigned_worker P.uuids P.stores st' t.id ≡ (some w, none))
    unfolding get_task get_assigned_worker link_task
    assigned_stored st st' t t' w task_ok link_ok h =
        let (db, wdb, p, q, e, f) = assigned_parts P.uuids P.stores st st' t t' w h in
        let key = P.uuids.to_string t.id in
        let put = tasks.get-put key key (record t { state = scheduled }) st.task_db db p task_ok in
        let linked = links.get-put key key w st.task_worker_db wdb q link_ok in
        (ground (arith, put, e), ground (arith, linked, e))

    -- If `SendWork` reports no error on an event whose target state is not Completed, then there is
    -- a worker that has the task, as Scheduled, at the end of its queue, and whose stored tasks and
    -- all other workers are as they were; the manager stores the task as Scheduled and under that
    -- worker. The manager's stores keep what is written, each of its clients is connected to the
    -- worker under whose id it stands, and a request that is answered was handled once.
    pub send_work-delivered :
        (started : IsFifo W.queue) (m n : Manager P) (te te' : TaskEvent) (events : List TaskEvent)
        → TaskOk m.state.task_db
        → LinkOk m.state.task_worker_db
        → Connected F m.worker_cluster
        → P.queue.contents m.pending ≡ te ∷ events
        → te.target_state ≢ completed
        → send_work P m ≡ some (n, some te', none)
        → let t : Task = record te.task { state = scheduled } in
          (w : ℕ) × (W.queue.contents (F.worker_at n.world w).queue
            ≡ W.queue.contents (F.worker_at m.world w).queue ++ t ∷ [])
          × ((F.worker_at n.world w).task_db ≡ (F.worker_at m.world w).task_db)
          × ((v : ℕ) → v ≢ w → F.worker_at n.world v ≡ F.worker_at m.world v)
          × (get_task P.uuids P.stores n.state t.id ≡ (some t, none))
          × (get_assigned_worker P.uuids P.stores n.state t.id ≡ (some w, none))
    unfolding add_task
    send_work-delivered started m n te te' events task_ok link_ok connected c start h =
        let popped = record m { pending = (P.queue.dequeue m.pending).1 } in
        let (st, same_tasks, same_links, s) =
          attempt-start P popped n te te' start (send_work-attempt P fifo m n te te' events c h) in
        let t : Task = record te.task { state = scheduled } in
        let (k, w, quiet, sent) =
          attempt_start-Sent (record popped { state = st }) n te te' connected s in
        let stored =
          assigned_stored k.state n.state te.task t w
            (subst TaskOk (ground (arith, quiet.state)) task_ok)
            (subst LinkOk (ground (arith, quiet.state)) link_ok) sent.assigned in
        let given = sent.reached.given in
        (
          w,
          ground (
            arith,
            given,
            quiet.workers w,
            started.contents-enqueue t (F.worker_at m.world w).queue,
          ),
          ground (arith, given, quiet.workers w),
          λ v ne. sent.reached.others v ne ∙ quiet.workers v,
          stored.0,
          stored.1,
        )
