-- ===== src/Manager/State/Rehydrate.antt =====
-- internal/app/manager/state.go: `NewState` and `rehydrate`, which infer the maps that are kept in
-- memory from the stores.
use netbula.Base.{ℕ, String, none, some, List, [], ◌∷◌, ◌++◌, nat_eq, if◌then◌else◌}
use netbula.Base.Int.{ℤ, increment}
use netbula.Base.Result.{Result, ok, err, fresh, wrap, ◌>>=◌, context}
use netbula.Base.Dict.{Dict, insert, keys}
use netbula.Task.{Task, is_active}
use netbula.Uuids.{Uuids}
use netbula.Manager.State.{Stores, StateStores, MappingStorage, tasks_of, count_of}

module _ (U : Uuids) where
  -- The loop over the entries of the TaskWorker DB.
  unfoldable pub group_tasks : Dict String ℕ → Dict ℕ (List ℕ) → Result (Dict ℕ (List ℕ))
  group_tasks [] m = ok m
  group_tasks ((key, w) ∷ es) m = do
    t ← context "failed to parse the task UUID from the TaskWorker DB" (U.parse key)
    group_tasks es (insert w (tasks_of w m ++ t ∷ []) m)

  -- The loop over the entries of the WorkerName DB.
  unfoldable pub add_workers : Dict String String → Dict ℕ (List ℕ) → Result (Dict ℕ (List ℕ))
  add_workers [] m = ok m
  add_workers ((key, name) ∷ es) m = do
    w ← context "failed to parse the worker UUID from the WorkerName DB" (U.parse key)
    add_workers es (insert w (tasks_of w m) m)

  module _ (D : Stores) where
    -- The task that a count needs: one that is missing is an error.
    unfoldable pub fetch_task : D.tasks.State → ℕ → Result Task
    fetch_task db id =
        let (t, e) = D.tasks.get (U.to_string id) db in
        elim e [
          | some e ↦ err (wrap "failed to get task from taskDb" e)
          | none ↦ elim t [ none ↦ err (fresh "no task with taskId in the taskDb") | some x ↦ ok x ]
        ]

    -- The inner loop of the count.
    unfoldable pub count_tasks : D.tasks.State → ℕ → List ℕ → Dict ℕ ℤ → Result (Dict ℕ ℤ)
    count_tasks db w [] counts = ok counts
    count_tasks db w (id ∷ ids) counts = do
      t ← fetch_task db id
      count_tasks db w ids
          (if is_active t.state then insert w (increment (count_of w counts)) counts else counts)

    -- The outer loop, over the map of the workers' tasks.
    unfoldable pub count_workers : D.tasks.State → Dict ℕ (List ℕ) → Dict ℕ ℤ → Result (Dict ℕ ℤ)
    count_workers db [] counts = ok counts
    count_workers db ((w, ids) ∷ m) counts = do
      counts' ← count_tasks db w ids counts
      count_workers db m counts'

    unfoldable pub new_state : StateStores D → Result (MappingStorage D)
    unfolding fetch_task
    new_state stores = context "failed to rehydrate the State component" (do
      task_workers ←
          context "failed to get entries from the DB mapping tasks to workers"
            (D.task_workers.entries stores.task_worker_db)
      grouped ← group_tasks task_workers []
      names ←
          context "failed to get entries from the DB mapping worker UUID to worker names"
            (D.worker_names.entries stores.worker_name_db)
      worker_task_map ← add_workers names grouped
      counts ← count_workers stores.task_db worker_task_map []
      ok (record {
        task_db = stores.task_db;
        event_db = stores.event_db;
        task_worker_db = stores.task_worker_db;
        worker_name_db = stores.worker_name_db;
        workers = keys worker_task_map;
        worker_task_map = worker_task_map;
        worker_active_task_count_map = counts;
      }))
