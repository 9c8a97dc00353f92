-- ===== src/Fleet/Stopping.antt =====
-- internal/app/manager/manager.go and internal/app/worker/handler.go: what has reached a worker when
-- `SendWork` reports no error on an event that stops a task.
use netbula.Base.{
  ℕ, ◌≡◌, ◌≢◌, ap, subst, ◌∙◌, inl, inr, none, some, List, [], ◌∷◌, ◌++◌, ◌<>◌, arith, ==-eq,
  nat_eq, string_eq, Option-cases,
}
use netbula.Base.Result.{Result-cases}
use netbula.Base.Dict.{lookup}
use netbula.Task.{completed, Task, TaskEvent}
use netbula.Uuids.{IsUuids}
use netbula.Queue.{IsFifo}
use netbula.Http.{status_no_content}
use netbula.Worker
use netbula.Worker.{Worker}
use netbula.Worker.Handlers.{stop_task_handler, stop_task_handler_lem}
use netbula.Manager.State.{get_assigned_worker}
use netbula.Manager.Cluster.{HttpClientCluster, delete_task, stop_task}
use netbula.Manager.Core.{Parts, Manager, stop_assigned, attempt_stop, send_work}
use netbula.Fleet.{Fleet, IsServing, Connected, status_of}
use netbula.Manager.Core.Success.{attempt-stop, send_work-attempt}

module _ (P : Parts) (W : netbula.Worker.Parts) (F : Fleet P.net W)
    (serving : IsServing P.net P.uuids W F) (law : IsUuids W.uuids) (stops : IsFifo W.queue) where
  -- From one world to the next, this worker is asked to stop the task that it has stored under
  -- this id, and no other worker changes.
  pub record Told (w id : ℕ) (a b : P.net.World) : Type 0 where
    pub task : Task
    pub stored : (W.tasks.get (W.uuids.to_string id) (F.worker_at a w).task_db).0 ≡ some task
    pub told :
        W.queue.contents (F.worker_at b w).queue
        ≡ W.queue.contents (F.worker_at a w).queue ++ record task { state = completed } ∷ []
    pub kept : (F.worker_at b w).task_db ≡ (F.worker_at a w).task_db
    pub others : (v : ℕ) → v ≢ w → F.worker_at b v ≡ F.worker_at a v

  -- A stop that the worker answers with 204.
  accepted :
      (w : Worker W) (id : ℕ)
      → status_of (stop_task_handler W w (W.uuids.to_string id)).1 ≡ status_no_content
      → (t : Task) × ((W.tasks.get (W.uuids.to_string id) w.task_db).0 ≡ some t)
        × (W.queue.contents (stop_task_handler W w (W.uuids.to_string id)).0.queue
            ≡ W.queue.contents w.queue ++ record t { state = completed } ∷ [])
        × ((stop_task_handler W w (W.uuids.to_string id)).0.task_db ≡ w.task_db)
  accepted w id s = elim (stop_task_handler_lem W stops law w id) [
    | inl (t, g, q, d, r) ↦ (t, g, q, d)
    | inr (g, same) ↦ let (kept, reply, r, c) = same in absurd (ground arith)
  ]

  delete_task-Told :
      (client : P.net.Client) (id : ℕ) (a : P.net.World)
      → (delete_task P.net P.uuids client id a).1 ≡ none
      → Told (F.reach client) id a (delete_task P.net P.uuids client id a).0
  unfolding delete_task
  delete_task-Told client id a h =
      let url = "http://worker/tasks/" <> P.uuids.to_string id in
      elim (Result-cases (P.net.request client "DELETE" url "" a).1) [
        | inl (e, q) ↦ absurd (ground arith)
        | inr (resp, q) ↦
            let u = F.reach client in
            let text = serving.to_string-same id in
            let (handled, status) = serving.request-delete client id a resp q in
            let good : resp.status_code ≡ status_no_content =
              ground (arith, ==-eq resp.status_code status_no_content) in
            let (t, g, c, d) = accepted (F.worker_at a u) id (ground arith) in
            let same : (delete_task P.net P.uuids client id a).0
                ≡ (P.net.request client "DELETE" url "" a).0 =
              ground arith in
            let at = ap (λ x. F.worker_at x u) same ∙ handled in
            record {
              task = t;
              stored = g;
              told = ground arith;
              kept = ground arith;
              others = λ v n.
                  ap (λ x. F.worker_at x v) same
                  ∙ serving.request-other client "DELETE" url "" a v n;
            }
      ]

  stop_task-Told :
      (cluster : HttpClientCluster P.net) (w id : ℕ) (a : P.net.World)
      → Connected F cluster
      → (stop_task P.net P.uuids cluster w id a).1 ≡ none
      → Told w id a (stop_task P.net P.uuids cluster w id a).0
  unfolding stop_task
  stop_task-Told cluster w id a connected h =
      elim (Option-cases (lookup w cluster.worker_client_map)) [
        | inl e ↦ absurd (ground arith)
        | inr (client, e) ↦
            let same : (delete_task P.net P.uuids client id a).0
                ≡ (stop_task P.net P.uuids cluster w id a).0 =
              ground arith in
            let refused = Option-cases (delete_task P.net P.uuids client id a).1 in
            subst (Told w id a) same (
              subst (λ u. Told u id a (delete_task P.net P.uuids client id a).0)
                (connected w client e) (delete_task-Told client id a (ground (arith, refused))))
      ]

  -- The worker is the one that the manager has stored for the task.
  attempt_stop-Told :
      (m n : Manager P) (te te' : TaskEvent)
      → Connected F m.worker_cluster
      → attempt_stop P m te ≡ (n, te', none)
      → (w : ℕ) × (get_assigned_worker P.uuids P.stores m.state te.task.id ≡ (some w, none))
        × (n.state ≡ m.state)
        × Told w te.task.id m.world n.world
  unfolding attempt_stop stop_assigned
  attempt_stop-Told m n te te' connected h =
      let id = te.task.id in
      elim (Option-cases (get_assigned_worker P.uuids P.stores m.state id).1) [
        | inr (e, p) ↦ absurd (ground arith)
        | inl p ↦ elim (Option-cases (get_assigned_worker P.uuids P.stores m.state id).0) [
          | inl q ↦ absurd (ground arith)
          | inr (w, q) ↦
              let refused =
                Option-cases (stop_task P.net P.uuids m.worker_cluster w id m.world).1 in
              let same : (stop_task P.net P.uuids m.worker_cluster w id m.world).0 ≡ n.world =
                ground (arith, refused) in
              (
                w,
                ground arith,
                ground (arith, refused),
                subst (Told w id m.world) same (
                    stop_task-Told m.worker_cluster w id m.world connected
                      (ground (arith, refused))),
              )
        ]
      ]

  -- If `SendWork` reports no error on an event that is to stop a task, then the worker that the
  -- manager has stored for the task knows it and has the request to stop it at the end of its queue;
  -- its stored tasks and all other workers are as they were, and the manager's stored tasks too.
  -- Each client of the manager is connected to the worker under whose id it stands, and a request
  -- that is answered was handled once.
  pub send_work-stopped :
      (fifo : IsFifo P.queue) (m n : Manager P) (te te' : TaskEvent) (events : List TaskEvent)
      → Connected F m.worker_cluster
      → P.queue.contents m.pending ≡ te ∷ events
      → te.target_state ≡ completed
      → send_work P m ≡ some (n, some te', none)
      → (w : ℕ) × (get_assigned_worker P.uuids P.stores m.state te.task.id ≡ (some w, none))
        × (n.state.task_db ≡ m.state.task_db)
        × Told w te.task.id m.world n.world
  unfolding get_assigned_worker
  send_work-stopped fifo m n te te' events connected c stop h =
      let popped = record m { pending = (P.queue.dequeue m.pending).1 } in
      let (st, same_tasks, same_links, s) =
        attempt-stop P popped n te te' stop (send_work-attempt P fifo m n te te' events c h) in
      let (w, assigned, same, told) =
        attempt_stop-Told (record popped { state = st }) n te te' connected s in
      (w, ground arith, ground arith, told)
