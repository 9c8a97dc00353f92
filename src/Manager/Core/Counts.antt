-- ===== src/Manager/Core/Counts.antt =====
-- internal/app/manager/manager.go: `SendWork` and the counts of active tasks.
use netbula.Base.{
  ℕ, ◌≡◌, refl, sym, subst, ◌∙◌, ◌⊎◌, inl, inr, true, Option, none, some, List, [], ◌∷◌, arith,
  ◌==◌, string_eq, nat_eq, Option-cases, Bool-cases,
}
use netbula.Base.Result.{Err, Result, ok, Result-cases}
use netbula.Store.{IsLawful, Reliable}
use netbula.Task.{
  scheduled, completed, failed, state_eq, is_active, Task, TaskEvent, valid_state_transition,
}
use netbula.Task.Lifecycle.{valid-History}
use netbula.Node.{Node}
use netbula.Uuids.{Uuids, IsUuids}
use netbula.Queue.{IsFifo, head?}
use netbula.Manager.State.{
  merge_task, Stores, MappingStorage, update_task, update_task_event, get_assigned_worker, get_task,
  assign_task_to_worker,
}
use netbula.Manager.State.Invariant.{Inv, Inv-same, is_counted}
use netbula.Manager.State.Update.{update_task-Inv}
use netbula.Manager.State.Assign.{assign_task_to_worker-Inv}
use netbula.Manager.Cluster.{update_worker_nodes, get_nodes}
use netbula.Manager.Core.{
  Parts, Manager, Attempt, refresh, select_worker, select_among, choose, determine_worker,
  attempt_stop, attempt_send, attempt_start, attempt, settle, send_work,
}

module _ (U : Uuids) (D : Stores) where
  -- The task is new to the manager, or assigned and active.
  abbrev pub Live : MappingStorage D → ℕ → Type 0
  Live st id =
      ((D.tasks.get (U.to_string id) st.task_db ≡ (none, none))
        × (D.task_workers.get (U.to_string id) st.task_worker_db ≡ (none, none)))
      ⊎ ((x : Task) × (w : ℕ) × (D.tasks.get (U.to_string id) st.task_db ≡ (some x, none))
          × (is_active x.state ≡ true)
          × (D.task_workers.get (U.to_string id) st.task_worker_db ≡ (some w, none)))

module _ (P : Parts) (law : IsUuids P.uuids) {TaskOk : P.stores.tasks.State → Type 0}
    {LinkOk : P.stores.task_workers.State → Type 0} (tasks : IsLawful P.stores.tasks TaskOk)
    (links : IsLawful P.stores.task_workers LinkOk) (task_io : Reliable P.stores.tasks)
    (link_io : Reliable P.stores.task_workers) where
  -- The counts are exact, and the task is one that can be sent or stopped.
  abbrev Good : ℕ → MappingStorage P.stores → Type 0
  Good id st = Inv P.uuids P.stores TaskOk LinkOk st × Live P.uuids P.stores st id

  update_task_event-Good :
      (st : MappingStorage P.stores) (te : TaskEvent) (id : ℕ)
      → Good id st
      → Good id (update_task_event P.uuids P.stores st te).0
  unfolding update_task_event
  update_task_event-Good st te id (i, l) =
      elim (Result-cases (P.stores.events.put (P.uuids.to_string te.id) te st.event_db)) [
        | inl (e, p) ↦ subst (Good id) (ground arith) (i, l)
        | inr (db, p) ↦
            subst (Good id) (ground arith)
              (Inv-same P.uuids P.stores st (record st { event_db = db }) refl refl refl refl i, l)
      ]

  pub refresh-state : (m n : Manager P) → refresh P m ≡ some n → n.state ≡ m.state
  unfolding refresh
  refresh-state m n h =
      elim (Option-cases
        (update_worker_nodes P.net P.uuids P.stores m.state m.worker_cluster m.world)) [
          | inl e ↦ absurd (ground arith)
          | inr (r, e) ↦ ground arith
        ]

  select_among-state :
      (m n : Manager P) (t : Task) (candidates : List Node) (r : Result ℕ)
      → select_among P m t candidates ≡ some (n, r)
      → n.state ≡ m.state
  unfolding select_among choose
  select_among-state m n t [] r h = ground arith
  select_among-state m n t (c ∷ candidates) r h = ground arith

  determine_worker-state :
      (m n : Manager P) (te : TaskEvent) (r : Result ℕ)
      → determine_worker P m te ≡ some (n, r)
      → n.state ≡ m.state
  unfolding determine_worker select_worker
  determine_worker-state m n te r h =
      elim (Option-cases (get_assigned_worker P.uuids P.stores m.state te.task.id).0) [
        | inr (w, g) ↦ ground arith
        | inl g ↦ elim (Option-cases (refresh P m)) [
          | inl e ↦ absurd (ground arith)
          | inr (k, e) ↦
              select_among-state k n te.task
                (P.scheduler.select_candidate_nodes te.task (get_nodes P.net k.worker_cluster)) r
                (ground arith)
              ∙ refresh-state m k e
        ]
      ]

  determine_worker-assigned :
      (m n : Manager P) (te : TaskEvent) (w v : ℕ)
      → determine_worker P m te ≡ some (n, ok v)
      → P.stores.task_workers.get (P.uuids.to_string te.task.id) m.state.task_worker_db
        ≡ (some w, none)
      → v ≡ w
  unfolding determine_worker get_assigned_worker
  determine_worker-assigned m n te w v h g = ground arith

  assign_done :
      (st : MappingStorage P.stores) (t : Task) (w : ℕ) (db : P.stores.tasks.State)
      (wdb : P.stores.task_workers.State)
      → P.stores.tasks.put (P.uuids.to_string t.id) (record t { state = scheduled }) st.task_db
        ≡ ok db
      → P.stores.task_workers.put (P.uuids.to_string t.id) w st.task_worker_db ≡ ok wdb
      → assign_task_to_worker P.uuids P.stores st t w
        ≡ ((assign_task_to_worker P.uuids P.stores st t w).0, ok (record t { state = scheduled }))
  unfolding assign_task_to_worker
  assign_done st t w db wdb p q = ground arith

  assignable :
      (st : MappingStorage P.stores) (t : Task) (w : ℕ)
      → Live P.uuids P.stores st t.id
      → ((v : ℕ)
          → P.stores.task_workers.get (P.uuids.to_string t.id) st.task_worker_db ≡ (some v, none)
          → w ≡ v)
      → (P.stores.task_workers.get (P.uuids.to_string t.id) st.task_worker_db ≡ (none, none))
        ⊎ ((P.stores.task_workers.get (P.uuids.to_string t.id) st.task_worker_db ≡ (some w, none))
            × (is_counted (P.stores.tasks.get (P.uuids.to_string t.id) st.task_db) ≡ true))
  assignable st t w (inl (g, h)) same = inl h
  assignable st t w (inr (x, v, g, a, l)) same = inr (ground (arith, same v l), ground arith)

  attempt_send-state :
      (m : Manager P) (te : TaskEvent) (w : ℕ)
      → (attempt_send P m te w).0.state
        ≡ (assign_task_to_worker P.uuids P.stores m.state te.task w).0
  unfolding attempt_send
  attempt_send-state m te w = ground arith

  attempt_send-Good :
      (m : Manager P) (te : TaskEvent) (w : ℕ)
      → Good te.task.id m.state
      → ((v : ℕ)
          → P.stores.task_workers.get (P.uuids.to_string te.task.id) m.state.task_worker_db
            ≡ (some v, none)
          → w ≡ v)
      → Good te.task.id (attempt_send P m te w).0.state
  attempt_send-Good m te w (i, l) same =
      let st = m.state in
      let key = P.uuids.to_string te.task.id in
      let (db, p) = task_io.writes key (record (te.task) { state = scheduled }) st.task_db in
      let (wdb, q) = link_io.writes key w st.task_worker_db in
      let done = assign_done st te.task w db wdb p q in
      let (j, g, a, f) =
        assign_task_to_worker-Inv P.uuids P.stores law tasks links st _ i te.task _ w done
          (assignable st te.task w l same) in
      subst (Good te.task.id) (sym (attempt_send-state m te w)) (
        j,
        inr (
          record (te.task) { state = scheduled },
          w,
          unfold get_task in g,
          refl,
          unfold get_assigned_worker in a,
        ),
      )

  fail-Inv :
      (st : MappingStorage P.stores) (t : Task)
      → Good t.id st
      → Inv P.uuids P.stores TaskOk LinkOk
          (update_task P.uuids P.stores st (record t { state = failed })).0
  unfolding update_task
  fail-Inv st t (i, inl (g, h)) = subst (Inv P.uuids P.stores TaskOk LinkOk) (ground arith) i
  fail-Inv st t (i, inr (x, w, g, a, l)) =
      let update : Task = record t { state = failed } in
      let (db, p) = task_io.writes (P.uuids.to_string t.id) (merge_task x update) st.task_db in
      update_task-Inv P.uuids P.stores law tasks st _ update i
        (λ y h. valid-History y.state failed (unfold valid_state_transition in ground arith))
        (ground (arith, link_io.reads (P.uuids.to_string t.id) st.task_worker_db))

  attempt_start-Good :
      (m : Manager P) (te : TaskEvent) (a : Attempt P)
      → Good te.task.id m.state
      → attempt_start P m te ≡ some a
      → Good te.task.id a.0.state
  unfolding attempt_start
  attempt_start-Good m te a good h = elim (Option-cases (determine_worker P m te)) [
    | inl e ↦ absurd (ground arith)
    | inr ((n, r), e) ↦
        let same = determine_worker-state m n te r e in
        let here = subst (Good te.task.id) (sym same) good in
        elim (Result-cases r) [
          | inl (f, q) ↦ subst (Good te.task.id) (ground arith) here
          | inr (w, q) ↦
              let sent =
                attempt_send-Good n te w here
                  (λ v g. determine_worker-assigned m n te v w (ground arith) (ground arith)) in
              subst (Good te.task.id) (ground arith) sent
        ]
  ]

  attempt_stop-state : (m : Manager P) (te : TaskEvent) → (attempt_stop P m te).0.state ≡ m.state
  unfolding attempt_stop
  attempt_stop-state m te = ground arith

  attempt-Good :
      (m : Manager P) (te : TaskEvent) (a : Attempt P)
      → Good te.task.id m.state
      → attempt P m te ≡ some a
      → Good te.task.id a.0.state
  unfolding attempt
  attempt-Good m te a good h =
      let state = (update_task_event P.uuids P.stores m.state te).0 in
      let n : Manager P = record m { state = state } in
      let logged = update_task_event-Good m.state te te.task.id good in
      elim (Option-cases (update_task_event P.uuids P.stores m.state te).1) [
        | inr (e, q) ↦ subst (Good te.task.id) (ground arith) logged
        | inl q ↦ elim (Bool-cases (state_eq te.target_state completed)) [
          | inl c ↦ subst (Good te.task.id) (ground (arith, attempt_stop-state n te)) logged
          | inr c ↦ attempt_start-Good n te a logged (ground arith)
        ]
      ]

  settle-Inv :
      (t : Task) (a : Attempt P)
      → Good t.id a.0.state
      → Inv P.uuids P.stores TaskOk LinkOk (settle P t a).0.state
  unfolding settle
  settle-Inv t (m, te, none) good = good.0
  settle-Inv t (m, te, some e) good = fail-Inv m.state t good

  -- With stores that do not fail, a call of `SendWork` that does not panic keeps the counts exact,
  -- whether the event reaches a worker or not, if the oldest event's task is new to the manager or
  -- is assigned and stored as Scheduled or Running.
  pub send_work-Inv :
      (fifo : IsFifo P.queue) (m m' : Manager P) (te : TaskEvent) (target : Option TaskEvent)
      (e : Option Err)
      → Inv P.uuids P.stores TaskOk LinkOk m.state
      → head? (P.queue.contents m.pending) ≡ some te
      → Live P.uuids P.stores m.state te.task.id
      → send_work P m ≡ some (m', target, e)
      → Inv P.uuids P.stores TaskOk LinkOk m'.state
  unfolding send_work
  send_work-Inv fifo m m' te target e inv first live h =
      let popped : Manager P = record m { pending = (P.queue.dequeue m.pending).1 } in
      let next = fifo.dequeue-head? m.pending in
      elim (Bool-cases (P.queue.len m.pending == 0)) [
        | inl z ↦ subst (Inv P.uuids P.stores TaskOk LinkOk) (ground arith) inv
        | inr z ↦ elim (Option-cases (attempt P popped te)) [
          | inl f ↦ absurd (ground arith)
          | inr (a, f) ↦
              subst (Inv P.uuids P.stores TaskOk LinkOk) (ground arith)
                (settle-Inv te.task a (attempt-Good popped te a (inv, live) f))
        ]
      ]
