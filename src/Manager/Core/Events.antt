-- ===== src/Manager/Core/Events.antt =====
-- internal/app/manager/manager.go: what `SendWork` does with the queue and with the tasks.
use netbula.Base.{
  ℕ, ◌≡◌, refl, ◌∙◌, ◌≢◌, inl, inr, Option, none, some, List, [], ◌∷◌, arith, nat_eq, Option-cases,
}
use netbula.Base.Result.{Err, Result, Result-cases}
use netbula.Task.{Task, TaskEvent}
use netbula.Queue.{IsFifo}
use netbula.Manager.State.{update_task_event, get_assigned_worker}
use netbula.Manager.Core.{
  Parts, Manager, Attempt, refresh, select_worker, determine_worker, attempt_stop, attempt_send,
  attempt_start, attempt, settle, send_work,
}

module _ (P : Parts) where
  refresh-pending : (m m' : Manager P) → refresh P m ≡ some m' → m'.pending ≡ m.pending
  unfolding refresh
  refresh-pending m m' h = ground arith

  select_worker-pending :
      (m m' : Manager P) (t : Task) (r : Result ℕ)
      → select_worker P m t ≡ some (m', r)
      → m'.pending ≡ m.pending
  unfolding select_worker
  select_worker-pending m m' t r h = elim (Option-cases (refresh P m)) [
    | inl e ↦ absurd (ground arith)
    | inr (n, e) ↦ ground (arith, refresh-pending m n e)
  ]

  attempt_stop-pending :
      (m : Manager P) (te : TaskEvent) → (attempt_stop P m te).0.pending ≡ m.pending
  unfolding attempt_stop
  attempt_stop-pending m te = ground arith

  attempt_send-pending :
      (m : Manager P) (te : TaskEvent) (w : ℕ) → (attempt_send P m te w).0.pending ≡ m.pending
  unfolding attempt_send
  attempt_send-pending m te w = ground arith

  attempt_start-pending :
      (m : Manager P) (te : TaskEvent) (a : Attempt P)
      → attempt_start P m te ≡ some a
      → a.0.pending ≡ m.pending
  unfolding attempt_start
  attempt_start-pending m te a h =
      elim (Option-cases ((get_assigned_worker P.uuids P.stores m.state te.task.id).0)) [
        | inr (w, g) ↦ ground (arith, attempt_send-pending m te w)
        | inl g ↦ elim (Option-cases (select_worker P m te.task)) [
          | inl e ↦ absurd (ground arith)
          | inr ((n, r), e) ↦ elim (Result-cases r) [
            | inl (f, q) ↦ ground (arith, select_worker-pending m n te.task r e)
            | inr (w, q) ↦
                ground (arith, select_worker-pending m n te.task r e, attempt_send-pending n te w)
          ]
        ]
      ]

  attempt-pending :
      (m : Manager P) (te : TaskEvent) (a : Attempt P)
      → attempt P m te ≡ some a
      → a.0.pending ≡ m.pending
  unfolding attempt
  attempt-pending m te a h =
      let m' = record m { state = (update_task_event P.uuids P.stores m.state te).0 } in
      ground (arith, attempt_stop-pending m' te, attempt_start-pending m' te a)

  settle-pending : (t : Task) (a : Attempt P) → (settle P t a).0.pending ≡ a.0.pending
  unfolding settle
  settle-pending t (m, te, none) = refl
  settle-pending t (m, te, some e) = refl

  attempt_stop-id : (m : Manager P) (te : TaskEvent) → (attempt_stop P m te).1.id ≡ te.id
  unfolding attempt_stop
  attempt_stop-id m te = ground arith

  attempt_send-id : (m : Manager P) (te : TaskEvent) (w : ℕ) → (attempt_send P m te w).1.id ≡ te.id
  unfolding attempt_send
  attempt_send-id m te w = ground arith

  attempt_start-id :
      (m : Manager P) (te : TaskEvent) (a : Attempt P)
      → attempt_start P m te ≡ some a
      → a.1.id ≡ te.id
  unfolding attempt_start
  attempt_start-id m te a h = elim (Option-cases (determine_worker P m te)) [
    | inl e ↦ absurd (ground arith)
    | inr ((n, r), e) ↦ elim (Result-cases r) [
      | inl (f, q) ↦ ground arith
      | inr (w, q) ↦ ground (arith, attempt_send-id n te w)
    ]
  ]

  attempt-id :
      (m : Manager P) (te : TaskEvent) (a : Attempt P) → attempt P m te ≡ some a → a.1.id ≡ te.id
  unfolding attempt
  attempt-id m te a h =
      let m' = record m { state = (update_task_event P.uuids P.stores m.state te).0 } in
      ground (arith, attempt_stop-id m' te, attempt_start-id m' te a)

  settle-id : (t : Task) (a : Attempt P) → (settle P t a).1.id ≡ a.1.id
  unfolding settle
  settle-id t (m, te, none) = refl
  settle-id t (m, te, some e) = refl

  -- With nothing pending, nothing happens and the result is an error; else the oldest event goes.
  abbrev pub Taken : List TaskEvent → Manager P → Manager P × Option TaskEvent × Option Err → Type 0
  Taken [] m (m', target, e) = (m' ≡ m) × (target ≡ none) × (e ≢ none)
  Taken (te ∷ events) m (m', target, e) =
      (P.queue.contents m'.pending ≡ events) × (t : TaskEvent) × (target ≡ some t) × (t.id ≡ te.id)

  module _ (fifo : IsFifo P.queue) (m m' : Manager P) (target : Option TaskEvent)
      (e : Option Err) where
    send_work-next :
        (events : List TaskEvent)
        → P.queue.contents m.pending ≡ events
        → send_work P m ≡ some (m', target, e)
        → Taken events m (m', target, e)
    unfolding send_work
    send_work-next [] c h = let l = fifo.len-length m.pending in ground (arith, l)
    send_work-next (te ∷ events) c h =
        let l = fifo.len-length m.pending in
        let d = fifo.dequeue-head? m.pending in
        let r = fifo.dequeue-tail m.pending in
        let popped = record m { pending = (P.queue.dequeue m.pending).1 } in
        elim (Option-cases (attempt P popped te)) [
          | inl f ↦ absurd (ground arith)
          | inr (a, f) ↦ (
            ground (arith, attempt-pending popped te a f, settle-pending te.task a),
            (settle P te.task a).1,
            ground arith,
            settle-id te.task a ∙ attempt-id popped te a f,
          )
        ]

    -- A call of `SendWork` that does not panic takes exactly the oldest event off the queue,
    -- whether or not the event reaches a worker, and reports on that event: a failed event is not
    -- queued again, and no other is touched. With an empty queue it changes nothing and reports an
    -- error.
    pub send_work-Taken :
        send_work P m ≡ some (m', target, e) → Taken (P.queue.contents m.pending) m (m', target, e)
    send_work-Taken h = send_work-next (P.queue.contents m.pending) refl h
