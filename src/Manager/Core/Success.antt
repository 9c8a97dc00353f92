-- ===== src/Manager/Core/Success.antt =====
-- internal/app/manager/manager.go: the calls that a `SendWork` without an error has made.
use netbula.Base.{◌≡◌, ◌≢◌, inl, inr, none, some, List, ◌∷◌, arith, nat_eq, Option-cases}
use netbula.Task.{completed, TaskEvent}
use netbula.Queue.{IsFifo}
use netbula.Manager.State.{MappingStorage, update_task_event}
use netbula.Manager.Core.{Parts, Manager, attempt_stop, attempt_start, attempt, settle, send_work}

module _ (P : Parts) where
  pub attempt-start :
      (m n : Manager P) (te te' : TaskEvent)
      → te.target_state ≢ completed
      → attempt P m te ≡ some (n, te', none)
      → (st : MappingStorage P.stores) × (st.task_db ≡ m.state.task_db)
        × (st.task_worker_db ≡ m.state.task_worker_db)
        × (attempt_start P (record m { state = st }) te ≡ some (n, te', none))
  unfolding attempt update_task_event
  attempt-start m n te te' start h =
      ((update_task_event P.uuids P.stores m.state te).0, ground arith, ground arith, ground arith)

  pub attempt-stop :
      (m n : Manager P) (te te' : TaskEvent)
      → te.target_state ≡ completed
      → attempt P m te ≡ some (n, te', none)
      → (st : MappingStorage P.stores) × (st.task_db ≡ m.state.task_db)
        × (st.task_worker_db ≡ m.state.task_worker_db)
        × (attempt_stop P (record m { state = st }) te ≡ (n, te', none))
  unfolding attempt update_task_event
  attempt-stop m n te te' stop h =
      ((update_task_event P.uuids P.stores m.state te).0, ground arith, ground arith, ground arith)

  pub send_work-attempt :
      (fifo : IsFifo P.queue) (m n : Manager P) (te te' : TaskEvent) (events : List TaskEvent)
      → P.queue.contents m.pending ≡ te ∷ events
      → send_work P m ≡ some (n, some te', none)
      → attempt P (record m { pending = (P.queue.dequeue m.pending).1 }) te ≡ some (n, te', none)
  unfolding send_work settle
  send_work-attempt fifo m n te te' events c h =
      let l = fifo.len-length m.pending in
      let d = fifo.dequeue-head? m.pending in
      let popped = record m { pending = (P.queue.dequeue m.pending).1 } in
      elim (Option-cases (attempt P popped te)) [
        | inl f ↦ absurd (ground arith)
        | inr ((k, s, e), f) ↦ elim (Option-cases e) [
          | inl g ↦ ground arith
          | inr (x, g) ↦ absurd (ground arith)
        ]
      ]
