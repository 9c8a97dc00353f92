-- ===== src/Worker/Handlers.antt =====
-- internal/app/worker/handler.go: the handlers of the worker's API, which the manager calls.
use netbula.Base.{
  ℕ, String, ◌≡◌, refl, ◌⊎◌, inl, inr, none, some, List, [], ◌∷◌, ◌++◌, arith, ◌==◌, string_eq,
  ==-ne, if◌then◌else◌, Option-cases,
}
use netbula.Base.Result.{Result, ok, err}
use netbula.Task.{completed, Task, TaskEvent}
use netbula.Uuids.{IsUuids, nil_uuid}
use netbula.Node.{Stats}
use netbula.Queue.{IsFifo}
use netbula.Http.{
  Reply, error, one_task, many_tasks, stats, worker_info, status_ok, status_created,
  status_no_content, status_bad_request, status_not_found, status_internal_server_error,
  respond_json, respond_error, write_header,
}
use netbula.Worker.{Parts, Worker, add_task, get_tasks}

-- Decoding the body of a request is encoding/json's work; its result is an argument.
module _ (P : Parts) where
  unfoldable pub get_worker_stats_handler : Result Stats → List Reply
  get_worker_stats_handler (err e) = respond_error [] status_internal_server_error "stats"
  get_worker_stats_handler (ok s) = respond_json [] status_ok (stats s)

  unfoldable pub get_worker_info_handler : Worker P → List Reply
  get_worker_info_handler w = respond_json [] status_ok (worker_info w.name w.uuid)

  unfoldable pub start_task_handler : Worker P → Result TaskEvent → Worker P × List Reply
  unfolding add_task
  start_task_handler w (err e) = (w, respond_error [] status_bad_request "Error unmarshalling body")
  start_task_handler w (ok te) =
      (add_task P w te.task, respond_json [] status_created (one_task te.task))

  unfoldable pub get_tasks_handler : Worker P → List Reply
  unfolding get_tasks
  get_tasks_handler w = elim (get_tasks P w) [
    | err e ↦ respond_error [] status_ok "Error getting list of tasks"
    | ok ts ↦ respond_json [] status_ok (many_tasks ts)
  ]

  -- `parsedId, _ := uuid.Parse(taskId)`: a text that is no id reads as the nil id.
  abbrev pub parse_or_nil : String → ℕ
  parse_or_nil task_id = elim (P.uuids.parse task_id) [ err e ↦ nil_uuid | ok id ↦ id ]

  -- An empty id is answered, and then handled like any other.
  unfoldable pub stop_task_handler : Worker P → String → Worker P × List Reply
  unfolding add_task
  stop_task_handler w task_id =
      let replies =
        if task_id == ""
        then respond_error [] status_bad_request "No taskId passed in the request."
        else [] in
      let (found, e) = P.tasks.get (P.uuids.to_string (parse_or_nil task_id)) w.task_db in
      elim found [
        | none ↦ elim e [
          | some _ ↦ (w, respond_error replies status_not_found "Error getting task from storage")
          | none ↦ (w, respond_error replies status_not_found "No task with this ID found")
        ]
        | some t ↦
            (add_task P w (record t { state = completed }), write_header replies status_no_content)
      ]

  -- The answers that leave the worker as it was.
  abbrev pub Refused : Worker P → Worker P × List Reply → Type 0
  Refused w (w', replies) =
      (w' ≡ w) × (r : Reply) × (replies ≡ r ∷ []) × (r.status_code ≡ status_not_found)

  -- To stop a task of which the worker knows the id appends one request to its queue, for that
  -- task in state Completed, and answers 204; for any other id nothing changes and the one answer
  -- is 404. Neither touches the stored tasks.
  pub stop_task_handler_lem :
      (fifo : IsFifo P.queue) (law : IsUuids P.uuids) (w : Worker P) (id : ℕ)
      → let (w', replies) = stop_task_handler w (P.uuids.to_string id) in
        ((t : Task) × ((P.tasks.get (P.uuids.to_string id) w.task_db).0 ≡ some t)
          × (P.queue.contents w'.queue
              ≡ P.queue.contents w.queue ++ record t { state = completed } ∷ [])
          × (w'.task_db ≡ w.task_db)
          × (replies ≡ record { status_code = status_no_content; body = none } ∷ []))
        ⊎ (((P.tasks.get (P.uuids.to_string id) w.task_db).0 ≡ none)
            × Refused w (stop_task_handler w (P.uuids.to_string id)))
  unfolding stop_task_handler
  stop_task_handler_lem fifo law w id =
      let key = P.uuids.to_string id in
      let read = law.parse-to_string id in
      let some_text = ==-ne key "" (law.to_string-ne id) in
      elim (Option-cases ((P.tasks.get key w.task_db).0)) [
        | inl g ↦ elim (Option-cases ((P.tasks.get key w.task_db).1)) [
          | inl e ↦ inr (
            g,
            (
              ground arith,
              record {
                status_code = status_not_found;
                body = some (error "No task with this ID found");
              },
              ground arith,
              refl,
            ),
          )
          | inr (f, e) ↦ inr (
            g,
            (
              ground arith,
              record {
                status_code = status_not_found;
                body = some (error "Error getting task from storage");
              },
              ground arith,
              refl,
            ),
          )
        ]
        | inr (t, g) ↦ inl (
          t,
          g,
          ground (arith, fifo.contents-enqueue (record t { state = completed }) w.queue),
          ground arith,
          ground arith,
        )
      ]
