-- ===== src/Control/Remote.antt =====
-- internal/app/control/api.go on one side, internal/app/manager/api.go on the other: the control
-- program in front of a manager.
use netbula.Base.{
  ℕ, String, ◌≡◌, ◌≢◌, refl, ◌⊎◌, inl, inr, Option, none, some, List, [], ◌∷◌, ◌++◌, subst, arith,
  ◌==◌, ==-eq, ==-refl, string_eq, Option-cases, Bool-cases,
}
use netbula.Base.Result.{Err, Result, ok, err, Result-cases}
use netbula.Task.{completed, Task, TaskEvent}
use netbula.Http.{Reply, Payload, error, many_tasks, text}
use netbula.Uuids.{Uuids, IsUuids}
use netbula.Queue.{IsFifo}
use netbula.Manager.State.{get_task}
use netbula.Manager.Core.{Parts, Manager}
use netbula.Manager.Api.{
  Request, tasks_post, tasks_get, tasks_delete, nodes_get, authenticate, route, stop_task_handler,
}
use netbula.Manager.Cluster.{Response}
use netbula.Fleet.{status_of}
use netbula.Control.Api.{Https, tasks_url, task_url, nodes_url, stop_task}

-- How a request is written: method, URL and, where it has none to send, an empty body. The id of a
-- task stands in the URL in its usual form, which needs no escape.
abbrev pub Written :
    Uuids
    → (decode : String → Result TaskEvent) → String
    → Request
    → String
    → String
    → String
    → Type 0
Written U decode address (tasks_post te) method url body =
    (method ≡ "POST") × (url ≡ tasks_url address) × (decode body ≡ te)
Written U decode address tasks_get method url body =
    (method ≡ "GET") × (url ≡ tasks_url address) × (body ≡ "")
Written U decode address (tasks_delete task_id) method url body =
    (method ≡ "DELETE")
    × (url ≡ task_url address task_id)
    × (body ≡ "")
    × (id : ℕ) × (task_id ≡ U.to_string id)
Written U decode address nodes_get method url body =
    (method ≡ "GET") × (url ≡ nodes_url address) × (body ≡ "")

-- The body of the answer that the client reads.
abbrev pub body_of : List Reply → Option Payload
body_of [] = none
body_of (r ∷ replies) = r.body

-- Reading a list of tasks gives back the list that was written, and fails on a text or an error.
abbrev pub Read : Result (List Task) → Option Payload → Type 0
Read r (some (many_tasks ts)) = r ≡ ok ts
Read r (some (error e)) = (x : Err) × (r ≡ err x)
Read r (some (text e)) = (x : Err) × (r ≡ err x)
Read r _ = Unit

-- At this address stands a manager with this token: a request that is answered was handled once by
-- its API, and the answer is the one that the API gave.
pub record IsApi (P : Parts) (H : Https) (manager_at : H.World → Manager P)
    (auth_token address : String) (decode : String → Result TaskEvent) : Type 0 where
  pub answered :
      (cert_fingerprint method url token body : String) (request : Request) (world : H.World)
      (resp : Response)
      → Written P.uuids decode address request method url body
      → (H.request cert_fingerprint method url token body world).1 ≡ ok resp
      → let next = (H.request cert_fingerprint method url token body world).0 in
        (fresh_id : ℕ) × (now : ℕ) × (replies : List Reply) × (authenticate P auth_token
            (manager_at world)
            token
            request
            fresh_id
            now
          ≡ some (manager_at next, replies))
        × (resp.status_code ≡ status_of replies)
        × Read (H.decode_tasks resp.body) (body_of replies)

module _ (P : Parts) (law : IsUuids P.uuids) (fifo : IsFifo P.queue) where
  -- What a request to stop a task has done: the one event is queued, or nothing is changed, since
  -- the token is wrong, or the manager has not stored a task with this id.
  abbrev pub Stopped : String → String → ℕ → Manager P → Manager P → Type 0
  Stopped auth_token token id m n =
      ((token ≡ auth_token)
        × (t : Task) × (te : TaskEvent) × (get_task P.uuids P.stores m.state id ≡ (some t, none))
        × (te.target_state ≡ completed)
        × (te.task ≡ t)
        × (n.state ≡ m.state)
        × (P.queue.contents n.pending ≡ P.queue.contents m.pending ++ te ∷ []))
      ⊎ ((n ≡ m)
          × ((token ≡ auth_token)
              → (t : Task) → get_task P.uuids P.stores m.state id ≢ (some t, none)))

  authenticate-Stopped :
      (auth_token token : String) (id : ℕ) (m n : Manager P) (fresh_id now : ℕ)
      (replies : List Reply)
      → authenticate P auth_token m token (tasks_delete (P.uuids.to_string id)) fresh_id now
        ≡ some (n, replies)
      → Stopped auth_token token id m n
  unfolding authenticate route stop_task_handler
  authenticate-Stopped auth_token token id m n fresh_id now replies h =
      let p = law.parse-to_string id in
      elim (Bool-cases (token == auth_token)) [
        | inr a ↦ inr (ground arith, λ same. absurd (ground (arith, ==-refl token)))
        | inl a ↦ elim (Option-cases (get_task P.uuids P.stores m.state id).0) [
          | inl g ↦ inr (ground arith, λ same x. ground arith)
          | inr (t, g) ↦ elim (Option-cases (get_task P.uuids P.stores m.state id).1) [
            | inr (e, q) ↦ inr (ground arith, λ same x. ground arith)
            | inl q ↦
                let te : TaskEvent = record {
                  id = fresh_id;
                  target_state = completed;
                  timestamp = now;
                  task = t;
                } in
                inl (
                  ==-eq token auth_token a,
                  t,
                  te,
                  ground arith,
                  refl,
                  refl,
                  ground arith,
                  ground (arith, fifo.contents-enqueue te m.pending),
                )
          ]
        ]
      ]

  module _ (H : Https) (manager_at : H.World → Manager P) (auth_token address : String)
      (decode : String → Result TaskEvent)
      (api : IsApi P H manager_at auth_token address decode) where
    -- `StopTask` against a manager, if it does not panic: either the token is the manager's and the
    -- id that of a task that the manager has stored, and then exactly one event, that stops that
    -- task, is put at the end of the queue and the state stays as it is; or one of these is not so,
    -- and the manager stays as it is. The manager stands behind the address, and a request that is
    -- answered was handled once.
    pub stop_task-Stopped :
        (token cert_fingerprint : String) (id : ℕ) (world world' : H.World)
        → stop_task H address token cert_fingerprint (P.uuids.to_string id) world ≡ some world'
        → Stopped auth_token token id (manager_at world) (manager_at world')
    unfolding stop_task
    stop_task-Stopped token cert_fingerprint id world world' h =
        let task_id = P.uuids.to_string id in
        let url = task_url address task_id in
        elim (Result-cases (H.request cert_fingerprint "DELETE" url token "" world).1) [
          | inl (e, p) ↦ absurd (ground arith)
          | inr (resp, p) ↦
              let (fresh_id, now, replies, done, status, read) =
                api.answered cert_fingerprint "DELETE" url token "" (tasks_delete task_id) world
                  resp (refl, refl, refl, id, refl) p in
              let same : (H.request cert_fingerprint "DELETE" url token "" world).0 ≡ world' =
                ground arith in
              subst (λ x. Stopped auth_token token id (manager_at world) (manager_at x)) same
                (authenticate-Stopped auth_token token id (manager_at world) _ fresh_id now replies
                  done)
        ]
