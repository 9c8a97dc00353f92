-- ===== src/Manager/State.antt =====
-- internal/app/manager/state.go: the state of the manager, `MappingStorage`. Each method runs under
-- the mutex, so it is one step from state to state; its log lines are left out.
pub mod Invariant
pub mod Rehydrate
pub mod Update
pub mod Assign
pub mod Faults
pub mod Roster
pub mod Grouping
pub mod Recover
pub mod Remembered
pub mod Reordering
use netbula.Base.{
  ℕ, String, ◌≡◌, Bool, true, false, not, ◌&&◌, Option, none, some, List, [], ◌∷◌, ◌++◌, contains,
  ◌==◌, nat_eq, if◌then◌else◌,
}
use netbula.Base.Int.{ℤ, pos, increment, decrement}
use netbula.Base.Result.{Err, Result, ok, err, fresh, wrap, ◌>>=◌, context}
use netbula.Base.Dict.{Dict, insert, get_or, keys}
use netbula.Store.{Store}
use netbula.Task.{State, scheduled, completed, failed, state_eq, is_active, Task, TaskEvent}
use netbula.Uuids.{Uuids}

-- What the four stores hold, by implementation.
pub record Stores : Type 1 where
  pub tasks : Store Task
  pub events : Store TaskEvent
  pub task_workers : Store ℕ
  pub worker_names : Store String

pub record StateStores (D : Stores) : Type 0 where
  pub task_db : D.tasks.State
  pub event_db : D.events.State
  pub task_worker_db : D.task_workers.State
  pub worker_name_db : D.worker_names.State

pub record MappingStorage (D : Stores) : Type 0 where
  pub task_db : D.tasks.State
  pub event_db : D.events.State
  pub task_worker_db : D.task_workers.State
  pub worker_name_db : D.worker_names.State
  pub workers : List ℕ
  pub worker_task_map : Dict ℕ (List ℕ)
  pub worker_active_task_count_map : Dict ℕ ℤ

-- `m[w]`, an empty slice for a missing key.
abbrev pub tasks_of : ℕ → Dict ℕ (List ℕ) → List ℕ
tasks_of w m = get_or w [] m

abbrev pub count_of : ℕ → Dict ℕ ℤ → ℤ
count_of w m = get_or w (pos 0) m

abbrev pub is_terminal : State → Bool
is_terminal completed = true
is_terminal failed = true
is_terminal _ = false

-- The fields of the stored task that an update takes over.
abbrev pub merge_task : Task → Task → Task
merge_task existing update = record existing {
  state = update.state;
  start_time = update.start_time;
  finish_time = update.finish_time;
  container_id = update.container_id;
  port_bindings = update.port_bindings;
}

module _ (U : Uuids) (D : Stores) where
  unfoldable pub get_worker_metadata : MappingStorage D → ℕ → String × ℤ
  get_worker_metadata state id =
      let active = count_of id state.worker_active_task_count_map in
      elim ((D.worker_names.get (U.to_string id) state.worker_name_db).0) [
        | none ↦ ("unknown", active)
        | some name ↦ (name, active)
      ]

  unfoldable pub get_worker_ids : MappingStorage D → List ℕ
  get_worker_ids state = state.workers

  unfoldable pub register_worker : MappingStorage D → ℕ → String → MappingStorage D × Option Err
  register_worker state worker_uuid worker_name =
      let (name, e) = D.worker_names.get (U.to_string worker_uuid) state.worker_name_db in
      elim e [
        | some e ↦ (state, some (wrap "failed to read from the WorkerNameDb" e))
        | none ↦
            elim (D.worker_names.put (U.to_string worker_uuid) worker_name state.worker_name_db) [
              | err e ↦ (state, some (wrap "failed to write to the WorkerNameDb" e))
              | ok db ↦ elim name [
                | none ↦ (
                  record state { worker_name_db = db; workers = state.workers ++ worker_uuid ∷ [] },
                  none,
                )
                | some _ ↦ (record state { worker_name_db = db }, none)
              ]
            ]
      ]

  -- The part of `UpdateTask` that takes a finished task off its worker's count.
  unfoldable pub count_down : MappingStorage D → ℕ → MappingStorage D × Option Err
  count_down state id =
      let (worker_id, e) = D.task_workers.get (U.to_string id) state.task_worker_db in
      elim e [
        | some e ↦ (state, some (wrap "failed to get worker assigned with task" e))
        | none ↦ elim worker_id [
          | none ↦ (
            state,
            some (
                wrap "failed to get worker assigned with task" (fresh "workerId retrieved is nil")),
          )
          | some w ↦
              let counts = state.worker_active_task_count_map in
              (
                record state {
                  worker_active_task_count_map = insert w (decrement (count_of w counts)) counts;
                },
                none,
              )
        ]
      ]

  unfoldable pub put_task : MappingStorage D → ℕ → Task → MappingStorage D × Option Err
  put_task state id t = elim (D.tasks.put (U.to_string id) t state.task_db) [
    | err e ↦ (state, some (wrap "failed to put task into TaskDb" e))
    | ok db ↦ (record state { task_db = db }, none)
  ]

  unfoldable pub update_existing : MappingStorage D → Task → Task → MappingStorage D × Option Err
  unfolding count_down put_task
  update_existing state existing update =
      let (counted, e) =
        if not (state_eq existing.state update.state) && is_terminal update.state
        then count_down state update.id
        else (state, none) in
      elim e [
        | some e ↦ (counted, some e)
        | none ↦ put_task counted update.id (merge_task existing update)
      ]

  unfoldable pub update_task : MappingStorage D → Task → MappingStorage D × Option Err
  unfolding update_existing
  update_task state update =
      let (existing, e) = D.tasks.get (U.to_string update.id) state.task_db in
      elim e [
        | some e ↦ (state, some (wrap "failed to get task from TaskDb" e))
        | none ↦ elim existing [
          | none ↦ (state, some (fresh "task not found in TaskDb"))
          | some x ↦ update_existing state x update
        ]
      ]

  -- The last part of `AssignTaskToWorker`: the maps that are kept in memory.
  unfoldable pub link_task : MappingStorage D → ℕ → ℕ → MappingStorage D
  link_task state id w =
      let linked = tasks_of w state.worker_task_map in
      let counts = state.worker_active_task_count_map in
      if contains linked id then state else record state {
        worker_task_map = insert w (linked ++ id ∷ []) state.worker_task_map;
        worker_active_task_count_map = insert w (increment (count_of w counts)) counts;
      }

  unfoldable pub assign_task_to_worker :
      MappingStorage D → Task → ℕ → MappingStorage D × Result Task
  unfolding link_task
  assign_task_to_worker state t w =
      let task = record t { state = scheduled } in
      let key = U.to_string t.id in
      elim (D.tasks.put key task state.task_db) [
        | err e ↦ (state, err (wrap "failed to add task to TaskDb" e))
        | ok db ↦ elim (D.task_workers.put key w state.task_worker_db) [
          | err e ↦
              (record state { task_db = db }, err (wrap "failed to add worker to TaskWorkerDb" e))
          | ok wdb ↦
              (link_task (record state { task_db = db; task_worker_db = wdb }) t.id w, ok task)
        ]
      ]

  unfoldable pub get_tasks : MappingStorage D → Result (List Task)
  get_tasks state = D.tasks.list state.task_db

  unfoldable pub get_task : MappingStorage D → ℕ → Option Task × Option Err
  get_task state id = D.tasks.get (U.to_string id) state.task_db

  unfoldable pub get_assigned_worker : MappingStorage D → ℕ → Option ℕ × Option Err
  get_assigned_worker state id = D.task_workers.get (U.to_string id) state.task_worker_db

  unfoldable pub update_task_event : MappingStorage D → TaskEvent → MappingStorage D × Option Err
  update_task_event state te = elim (D.events.put (U.to_string te.id) te state.event_db) [
    | err e ↦ (state, some e)
    | ok db ↦ (record state { event_db = db }, none)
  ]
