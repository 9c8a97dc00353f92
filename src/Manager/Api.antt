-- ===== src/Manager/Api.antt =====
-- internal/app/manager/api.go: the manager's API, which the control program calls. Routing is chi's
-- work and decoding a body encoding/json's; a request is an argument with both done. The id that
-- `uuid.New` makes and the time of the clock are arguments too; `none` is a panic.
pub mod Access
use netbula.Base.{
  ℕ, String, Option, none, some, List, [], ◌∷◌, ◌++◌, ◌==◌, string_eq, if◌then◌else◌, not,
}
use netbula.Base.Result.{Err, Result, ok, err}
use netbula.Task.{State, completed, Task, TaskEvent}
use netbula.Uuids.{Uuids}
use netbula.Http.{
  Reply, Payload, error, text, one_task, many_tasks, many_nodes, status_ok, status_created,
  status_no_content, status_bad_request, status_unauthorized, status_not_found,
  status_internal_server_error, respond_json, respond_error, write_header,
}
use netbula.Manager.State.{get_task, get_tasks}
use netbula.Manager.Cluster.{get_nodes}
use netbula.Manager.Core.{Parts, Manager, refresh, add_task_event}

-- The routes of `InitRouter`, with what the handler reads of the request.
pub data Request : Type 0 where
  tasks_post : Result TaskEvent → Request
  tasks_get : Request
  tasks_delete : String → Request
  nodes_get : Request

module _ (P : Parts) where
  unfoldable pub start_task_handler : Manager P → Result TaskEvent → Manager P × List Reply
  unfolding add_task_event
  start_task_handler m (err e) = (m, respond_error [] status_bad_request "failed to unmarshal body")
  start_task_handler m (ok te) =
      (add_task_event P m te, respond_json [] status_created (one_task te.task))

  unfoldable pub get_tasks_handler : Manager P → List Reply
  get_tasks_handler m = elim (get_tasks P.uuids P.stores m.state) [
    | err e ↦ respond_error [] status_internal_server_error "failed to get tasks from TaskDb"
    | ok tasks ↦ respond_json [] status_ok (many_tasks tasks)
  ]

  -- A missing task replaces the error of the store.
  unfoldable pub stop_task_handler : Manager P → String → ℕ → ℕ → Manager P × List Reply
  unfolding add_task_event
  stop_task_handler m task_id fresh_id now = elim (P.uuids.parse task_id) [
    | err e ↦ (m, respond_error [] status_bad_request "failed to parse taskId as UUID")
    | ok id ↦
        let (task_to_stop, e) = get_task P.uuids P.stores m.state id in
        elim task_to_stop [
          | none ↦ (m, respond_error [] status_not_found "failed to get task from TaskDb")
          | some t ↦ elim e [
            | some _ ↦ (m, respond_error [] status_not_found "failed to get task from TaskDb")
            | none ↦ (
              add_task_event P m
                  (record { id = fresh_id; target_state = completed; timestamp = now; task = t }),
              write_header [] status_no_content,
            )
          ]
        ]
  ]

  unfoldable pub get_nodes_handler : Manager P → Option (Manager P × List Reply)
  unfolding refresh
  get_nodes_handler m = elim (refresh P m) [
    | none ↦ none
    | some m' ↦
        some (m', respond_json [] status_ok (many_nodes (get_nodes P.net m'.worker_cluster)))
  ]

  unfoldable pub route : Manager P → Request → ℕ → ℕ → Option (Manager P × List Reply)
  unfolding start_task_handler get_tasks_handler stop_task_handler get_nodes_handler
  route m (tasks_post te) fresh_id now = some (start_task_handler m te)
  route m tasks_get fresh_id now = some (m, get_tasks_handler m)
  route m (tasks_delete task_id) fresh_id now = some (stop_task_handler m task_id fresh_id now)
  route m nodes_get fresh_id now = get_nodes_handler m

  -- `Authenticate`, around the routes, with the token of the header.
  unfoldable pub authenticate :
      String → Manager P → String → Request → ℕ → ℕ → Option (Manager P × List Reply)
  unfolding route
  authenticate auth_token m token request fresh_id now =
      if not (token == auth_token)
      then some
          (m, record { status_code = status_unauthorized; body = some (text "Unauthorized") } ∷ [])
      else route m request fresh_id now
