-- ===== src/Manager/Boot/Startup.antt =====
-- internal/app/manager/manager.go and internal/app/manager/boot.go: how a manager is made from its
-- stores.
use netbula.Base.{ℕ, String, nat_eq, string_eq}
use netbula.Base.Result.{Result, ok, ◌>>=◌, context}
use netbula.Store.Memory.{memory_store, new_in_memory_store}
use netbula.Store.Persistent.{Bolt, Codec, persistent_store, new_persistent_store}
use netbula.Task.{Task, TaskEvent}
use netbula.Manager.State.{Stores, StateStores}
use netbula.Manager.State.Rehydrate.{new_state}
use netbula.Manager.Cluster.{new_cluster}
use netbula.Manager.Core.{Parts, Manager, new_manager}

abbrev pub in_memory : Stores
in_memory = record {
  tasks = memory_store Task;
  events = memory_store TaskEvent;
  task_workers = memory_store ℕ;
  worker_names = memory_store String;
}

unfoldable pub create_in_memory_stores : StateStores in_memory
create_in_memory_stores = record {
  task_db = new_in_memory_store;
  event_db = new_in_memory_store;
  task_worker_db = new_in_memory_store;
  worker_name_db = new_in_memory_store;
}

module _ (B : Bolt) (tasks : Codec Task) (events : Codec TaskEvent) (task_workers : Codec ℕ)
    (worker_names : Codec String) where
  abbrev pub persistent : Stores
  persistent = record {
    tasks = persistent_store B tasks;
    events = persistent_store B events;
    task_workers = persistent_store B task_workers;
    worker_names = persistent_store B worker_names;
  }

  -- `opened` is what `bolt.Open` returned: the database, as it is seen through a bucket.
  unfoldable pub create_persistent_state_stores :
      Result (String → B.Db) → Result (StateStores persistent)
  create_persistent_state_stores opened = do
    db ← context "failed to open the persistent DB for manager" opened
    task_db ←
        context "failed to construct the persistent task DB" (new_persistent_store B (db "tasks"))
    event_db ←
        context "failed to construct the persistent task event DB"
          (new_persistent_store B (db "events"))
    task_worker_db ←
        context "failed to construct the persistent task to worker DB"
          (new_persistent_store B (db "task_to_worker"))
    worker_name_db ←
        context "failed to construct the persistent worker id to name DB"
          (new_persistent_store B (db "worker_id_to_name"))
    ok (record {
      task_db = task_db;
      event_db = event_db;
      task_worker_db = task_worker_db;
      worker_name_db = worker_name_db;
    })

module _ (P : Parts) where
  -- `New`
  unfoldable pub new : P.scheduler.State → StateStores P.stores → P.net.World → Result (Manager P)
  unfolding new_manager new_cluster
  new scheduler stores world = do
    loaded_states ←
        context "failed to create the State component storing mappings"
          (new_state P.uuids P.stores stores)
    ok (new_manager P loaded_states (new_cluster P.net) scheduler world)
