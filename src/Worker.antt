-- ===== src/Worker.antt =====
-- internal/app/worker/worker.go: the worker. A method that takes the mutex is one step; the clock is
-- an argument of the methods that read it, and log lines are left out.
pub mod Evolution
pub mod Handlers
pub mod Transitions
pub mod Monitor
pub mod Rounds
pub mod Races
pub mod Boot
use netbula.Base.{
  ℕ, zero, suc, String, Bool, true, false, not, ◌&&◌, Option, none, some, List, [], ◌∷◌, ◌==◌,
  string_eq, nat_eq, if◌then◌else◌,
}
use netbula.Base.Result.{Err, Result, ok, err, fresh, wrap, context}
use netbula.Store.{Store}
use netbula.Task.{
  State, scheduled, running, completed, failed, state_eq, Task, valid_state_transition, new_config,
}
use netbula.Uuids.{Uuids}
use netbula.Floats.{Floats}
use netbula.Queue.{Queue}
use netbula.Docker.{Client, DockerResult, Container, failure, run, stop, inspect}

-- What the worker is built on: ids, floats, the queue and the store of its tasks, and Docker.
pub record Parts : Type 1 where
  pub uuids : Uuids
  pub floats : Floats
  pub queue : Queue Task
  pub tasks : Store Task
  pub docker : Client

-- The worker, with the Docker daemon of its host.
pub record Worker (P : Parts) : Type 0 where
  pub name : String
  pub uuid : ℕ
  pub queue : P.queue.State
  pub task_db : P.tasks.State
  pub daemon : P.docker.Daemon

-- `Status` is one of those that `updateTasks` takes for a live container.
abbrev pub is_up : String → Bool
is_up status =
    if status == "running"
    then true
    else if status == "created"
    then true
    else status == "restarting"

module _ (P : Parts) where
  abbrev pub key : Task → String
  key t = P.uuids.to_string t.id

  -- A `Put` whose error is dropped.
  abbrev pub put_unchecked : Task → P.tasks.State → P.tasks.State
  put_unchecked t db = elim (P.tasks.put (key t) t db) [ err e ↦ db | ok db' ↦ db' ]

  unfoldable pub start_task : Worker P → Task → ℕ → Worker P × DockerResult
  start_task w t now =
      let task_to_start = record t { start_time = now } in
      let (daemon, result) = run P.floats P.docker (new_config task_to_start) w.daemon in
      let started = record task_to_start { container_id = result.container_id; state = running } in
      (record w { task_db = put_unchecked started w.task_db; daemon = daemon }, result)

  unfoldable pub stop_task : Worker P → Task → ℕ → Worker P × DockerResult
  stop_task w t now =
      let (daemon, result) = stop P.docker t.container_id w.daemon in
      let stopped = record t { finish_time = now; state = completed } in
      (record w { task_db = put_unchecked stopped w.task_db; daemon = daemon }, result)

  -- The `switch` on the state asked for.
  unfoldable pub dispatch : State → Worker P → Task → ℕ → Worker P × DockerResult
  dispatch scheduled w t now = start_task w t now
  dispatch completed w t now = stop_task w t now
  dispatch _ w t now = (w, failure (some (fresh "Unsupported state, not implemented yet")))

  unfoldable pub execute : Worker P → Task → Task → ℕ → Worker P × DockerResult
  unfolding dispatch
  execute w persisted queued now =
      if not (valid_state_transition persisted.state queued.state)
      then (w, failure (some (fresh "invalid transition")))
      else dispatch queued.state w queued now

  unfoldable pub transition_task : Worker P → Task → ℕ → Worker P × DockerResult
  unfolding execute
  transition_task w queued now =
      let (persisted, e) = P.tasks.get (key queued) w.task_db in
      elim e [
        | some e ↦ (w, failure (some e))
        | none ↦ elim persisted [
          | some t ↦ execute w t queued now
          | none ↦ execute (record w { task_db = put_unchecked queued w.task_db }) queued queued now
        ]
      ]

  unfoldable pub run_task : Worker P → ℕ → Worker P × DockerResult
  run_task w now =
      let (target, rest) = P.queue.dequeue w.queue in
      let popped = record w { queue = rest } in
      elim target [ none ↦ (popped, failure none) | some t ↦ transition_task popped t now ]

  unfoldable pub add_task : Worker P → Task → Worker P
  add_task w t = record w { queue = P.queue.enqueue t w.queue }

  unfoldable pub store_task : Worker P → Task → Worker P × Option Err
  store_task w t = elim (P.tasks.put (key t) t w.task_db) [
    | err e ↦ (w, some (wrap "failed to put task into taskDb" e))
    | ok db ↦ (record w { task_db = db }, none)
  ]

  unfoldable pub get_tasks : Worker P → Result (List Task)
  get_tasks w = P.tasks.list w.task_db

  -- `RunTasksForever`, for this many rounds at these times: a round with an empty queue sleeps.
  unfoldable pub run_rounds : List ℕ → Worker P → Worker P
  run_rounds [] w = w
  run_rounds (now ∷ times) w =
      run_rounds times (if P.queue.len w.queue == 0 then w else (run_task w now).0)

  -- One round of the loop of `updateTasks`: `none` is a nil pointer dereference.
  unfoldable pub update_one : P.docker.Daemon → P.tasks.State → Task → Option P.tasks.State
  update_one daemon db t =
      if state_eq t.state running
      then elim ((P.tasks.get (key t) db).0) [
        | none ↦ none
        | some inspected ↦ elim (inspect P.docker t.container_id daemon).container [
          | none ↦ some (put_unchecked (record inspected { state = failed }) db)
          | some c ↦ some (
              P.tasks.write_through (key t)
                (record inspected {
                  state = if is_up c.status then inspected.state else failed;
                  port_bindings = c.ports;
                })
                db)
        ]
      ]
      else some db

  unfoldable pub update_all : P.docker.Daemon → P.tasks.State → List Task → Option P.tasks.State
  update_all daemon db [] = some db
  update_all daemon db (t ∷ ts) = elim (update_one daemon db t) [
    | none ↦ none
    | some db' ↦ update_all daemon db' ts
  ]

  unfoldable pub update_tasks : Worker P → Option (Worker P)
  unfolding update_all
  update_tasks w = elim (P.tasks.list w.task_db) [
    | err e ↦ some w
    | ok tasks ↦ elim (update_all w.daemon w.task_db tasks) [
      | none ↦ none
      | some db ↦ some (record w { task_db = db })
    ]
  ]
