-- ===== src/Manager/Api/Access.antt =====
-- internal/app/manager/api.go: what the API can do to the manager.
use netbula.Base.{
  ℕ, String, ◌≡◌, ◌⊎◌, inl, inr, Bool, true, false, some, List, [], ◌∷◌, ◌++◌, arith, ◌==◌,
  string_eq, nat_eq, Option-cases, Bool-cases, ◌||◌,
}
use netbula.Base.Result.{ok, err, Result-cases}
use netbula.Task.{completed, TaskEvent}
use netbula.Http.{Reply, status_created, status_no_content}
use netbula.Queue.{IsFifo}
use netbula.Manager.State.{get_task, get_tasks}
use netbula.Manager.Cluster.{update_worker_nodes}
use netbula.Manager.Core.{Parts, Manager}
use netbula.Manager.Api.{
  Request, tasks_post, tasks_get, tasks_delete, nodes_get, route, authenticate,
}

-- The status that the client sees is that of an accepted order.
abbrev pub is_accepted : List Reply → Bool
is_accepted [] = false
is_accepted (r ∷ replies) =
    (r.status_code == status_created) || (r.status_code == status_no_content)

module _ (P : Parts) where
  -- The stored state is untouched, and the queue is longer by the one event exactly if the order
  -- is accepted.
  abbrev pub Served : Manager P → Manager P × List Reply → Type 0
  Served m (m', replies) =
      (m'.state ≡ m.state)
      × (((is_accepted replies ≡ false) × (m'.pending ≡ m.pending))
          ⊎ ((is_accepted replies ≡ true)
              × (te : TaskEvent) × (P.queue.contents m'.pending
                  ≡ P.queue.contents m.pending ++ te ∷ [])))

  module _ (fifo : IsFifo P.queue) where
    route-Served :
        (m : Manager P) (request : Request) (fresh_id now : ℕ) (r : Manager P × List Reply)
        → route P m request fresh_id now ≡ some r
        → Served m r
    unfolding route
    route-Served m (tasks_post (err e)) fresh_id now r h =
        (ground arith, inl (ground arith, ground arith))
    route-Served m (tasks_post (ok te)) fresh_id now r h =
        (ground arith, inr (ground arith, te, ground (arith, fifo.contents-enqueue te m.pending)))
    route-Served m tasks_get fresh_id now r h =
        elim (Result-cases (get_tasks P.uuids P.stores m.state)) [
          | inl (e, g) ↦ (ground arith, inl (ground arith, ground arith))
          | inr (ts, g) ↦ (ground arith, inl (ground arith, ground arith))
        ]
    route-Served m (tasks_delete task_id) fresh_id now r h =
        elim (Result-cases (P.uuids.parse task_id)) [
          | inl (e, p) ↦ (ground arith, inl (ground arith, ground arith))
          | inr (id, p) ↦ elim (Option-cases (get_task P.uuids P.stores m.state id).0) [
            | inl g ↦ (ground arith, inl (ground arith, ground arith))
            | inr (t, g) ↦ elim (Option-cases (get_task P.uuids P.stores m.state id).1) [
              | inr (e, q) ↦ (ground arith, inl (ground arith, ground arith))
              | inl q ↦
                  let te : TaskEvent = record {
                    id = fresh_id;
                    target_state = completed;
                    timestamp = now;
                    task = t;
                  } in
                  (
                    ground arith,
                    inr (ground arith, te, ground (arith, fifo.contents-enqueue te m.pending)),
                  )
            ]
          ]
        ]
    route-Served m nodes_get fresh_id now r h =
        elim (Option-cases
          (update_worker_nodes P.net P.uuids P.stores m.state m.worker_cluster m.world)) [
            | inl e ↦ absurd (ground arith)
            | inr (n, e) ↦ (ground arith, inl (ground arith, ground arith))
          ]

    -- Whoever asks, and whatever for, the API leaves the manager's state as it is, its stores
    -- included. A call that does not panic appends at most one event to the queue; it appends one
    -- exactly when it answers 201 or 204, and then the token was the right one.
    pub authenticate-Served :
        (auth_token token : String) (m : Manager P) (request : Request) (fresh_id now : ℕ)
        (r : Manager P × List Reply)
        → authenticate P auth_token m token request fresh_id now ≡ some r
        → Served m r × (is_accepted r.1 ≡ true → token ≡ auth_token)
    unfolding authenticate
    authenticate-Served auth_token token m request fresh_id now r h =
        elim (Bool-cases (token == auth_token)) [
          | inl p ↦ (route-Served m request fresh_id now r (ground arith), λ q. ground arith)
          | inr p ↦ ((ground arith, inl (ground arith, ground arith)), λ q. ground arith)
        ]
