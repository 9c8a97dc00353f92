-- ===== src/Manager/Core.antt =====
-- internal/app/manager/manager.go: the manager, with the queue of pending task events. `none` as the
-- result of a method is a panic.
pub mod Events
pub mod Counts
pub mod Totality
pub mod Loops
pub mod Draining
pub mod Cancelling
pub mod Selection
pub mod Success
use netbula.Base.{
  ℕ, zero, suc, String, Bool, true, false, Option, none, some, List, [], ◌∷◌, ◌==◌, nat_eq,
  if◌then◌else◌,
}
use netbula.Base.Result.{Err, Result, ok, err, fresh, wrap, context}
use netbula.Task.{State, completed, failed, state_eq, Task, TaskEvent}
use netbula.Node.{Node}
use netbula.Uuids.{Uuids}
use netbula.Queue.{Queue}
use netbula.Scheduler.{Scheduler}
use netbula.Manager.State.{
  Stores, MappingStorage, register_worker, update_task, update_task_event, get_assigned_worker,
  assign_task_to_worker, get_task, get_tasks,
}
use netbula.Manager.Cluster.{
  Net, HttpClientCluster, get_client, add_client, get_nodes, update_worker_nodes, sync_tasks,
  send_task, stop_task,
}

pub record Parts : Type 1 where
  pub uuids : Uuids
  pub stores : Stores
  pub net : Net
  pub queue : Queue TaskEvent
  pub scheduler : Scheduler

pub record Manager (P : Parts) : Type 0 where
  pub state : MappingStorage P.stores
  pub worker_cluster : HttpClientCluster P.net
  pub pending : P.queue.State
  pub scheduler : P.scheduler.State
  pub world : P.net.World

module _ (P : Parts) where
  unfoldable pub new_manager :
      MappingStorage P.stores
      → HttpClientCluster P.net
      → P.scheduler.State
      → P.net.World
      → Manager P
  new_manager state cluster scheduler world = record {
    state = state;
    worker_cluster = cluster;
    pending = P.queue.new;
    scheduler = scheduler;
    world = world;
  }

  -- `UpdateWorkerNodes` of the manager.
  unfoldable pub refresh : Manager P → Option (Manager P)
  refresh m = elim (update_worker_nodes P.net P.uuids P.stores m.state m.worker_cluster m.world) [
    | none ↦ none
    | some (world, cluster) ↦ some (record m { worker_cluster = cluster; world = world })
  ]

  unfoldable pub add_worker_and_client : Manager P → ℕ → String → P.net.Client → Manager P
  add_worker_and_client m uuid name client =
      let (state, e) = register_worker P.uuids P.stores m.state uuid name in
      elim e [
        | some e ↦ record m { state = state }
        | none ↦ record m {
          state = state;
          worker_cluster = add_client P.net m.worker_cluster uuid client;
        }
      ]

  -- `Score` and `Pick`, on candidates that are there.
  unfoldable pub choose : Manager P → Task → List Node → Option (Manager P × Result ℕ)
  choose m t candidates = elim (P.scheduler.score m.scheduler t candidates) [
    | none ↦ none
    | some (scheduler, scores) ↦ elim (P.scheduler.pick scores candidates) [
      | none ↦ none
      | some node ↦ some (record m { scheduler = scheduler }, ok node.worker_uuid)
    ]
  ]

  unfoldable pub select_among : Manager P → Task → List Node → Option (Manager P × Result ℕ)
  unfolding choose
  select_among m t [] =
      some (m, err (fresh "no available candidates match resource request for task"))
  select_among m t (c ∷ candidates) = choose m t (c ∷ candidates)

  unfoldable pub select_worker : Manager P → Task → Option (Manager P × Result ℕ)
  unfolding refresh select_among
  select_worker m t = elim (refresh m) [
    | none ↦ none
    | some m' ↦
        select_among m' t (P.scheduler.select_candidate_nodes t (get_nodes P.net m'.worker_cluster))
  ]

  -- `updateTasks`
  unfoldable pub update_tasks : Manager P → Manager P
  update_tasks m =
      let (world, state) = sync_tasks P.net P.uuids P.stores m.worker_cluster m.state m.world in
      record m { state = state; world = world }

  unfoldable pub determine_worker : Manager P → TaskEvent → Option (Manager P × Result ℕ)
  determine_worker m te = elim ((get_assigned_worker P.uuids P.stores m.state te.task.id).0) [
    | some w ↦ some (m, ok w)
    | none ↦ select_worker m te.task
  ]

  -- `stopTask`
  unfoldable pub stop_assigned : Manager P → ℕ → Manager P × Option Err
  stop_assigned m id =
      let (worker_id, e) = get_assigned_worker P.uuids P.stores m.state id in
      elim e [
        | some e ↦ (m, some (wrap "failed to get workerId from db" e))
        | none ↦ elim worker_id [
          | none ↦ (m, some (fresh "failed to get workerId related to taskId"))
          | some w ↦
              let (world, e) = stop_task P.net P.uuids m.worker_cluster w id m.world in
              (record m { world = world }, e)
        ]
      ]

  -- An event on its way: the manager, the event as it now reads, and the error if there is one.
  abbrev pub Attempt : Type 0
  Attempt = Manager P × TaskEvent × Option Err

  unfoldable pub attempt_stop : Manager P → TaskEvent → Attempt
  unfolding stop_assigned
  attempt_stop m te =
      let (m', e) = stop_assigned m te.task.id in
      elim e [ some e ↦ (m', te, some (wrap "error stopping task" e)) | none ↦ (m', te, none) ]

  -- `AssignTaskToWorker`, then `SendTask`.
  unfoldable pub attempt_send : Manager P → TaskEvent → ℕ → Attempt
  attempt_send m te w =
      let (state, assigned) = assign_task_to_worker P.uuids P.stores m.state te.task w in
      let m' = record m { state = state } in
      elim assigned [
        | err e ↦ (m', te, some (wrap "failed to assign task to worker" e))
        | ok t ↦
            let te' = record te { task = t } in
            let (world, answer) = send_task P.net m.worker_cluster w te' m.world in
            let m'' = record m' { world = world } in
            elim answer [
              | err e ↦ (m'', te', some (wrap "failed to send the task to target worker" e))
              | ok _ ↦ (m'', te', none)
            ]
      ]

  unfoldable pub attempt_start : Manager P → TaskEvent → Option Attempt
  unfolding determine_worker attempt_send
  attempt_start m te = elim (determine_worker m te) [
    | none ↦ none
    | some (m', chosen) ↦ elim chosen [
      | err e ↦ some (m', te, some (wrap "failed to schedule the task" e))
      | ok w ↦ some (attempt_send m' te w)
    ]
  ]

  -- The body of `SendWork` after the event is taken off the queue.
  unfoldable pub attempt : Manager P → TaskEvent → Option Attempt
  unfolding attempt_stop attempt_start
  attempt m te =
      let (state, e) = update_task_event P.uuids P.stores m.state te in
      let m' = record m { state = state } in
      elim e [
        | some e ↦ some (m', te, some (wrap "failed to put pending task event to EventDb" e))
        | none ↦
            if state_eq te.target_state completed
            then some (attempt_stop m' te)
            else attempt_start m' te
      ]

  -- The deferred function: on an error the task, as it was queued, is marked as failed.
  unfoldable pub settle : Task → Attempt → Attempt
  settle t (m, te, none) = (m, te, none)
  settle t (m, te, some e) = (
    record m { state = (update_task P.uuids P.stores m.state (record t { state = failed })).0 },
    te,
    some e,
  )

  unfoldable pub send_work : Manager P → Option (Manager P × Option TaskEvent × Option Err)
  unfolding attempt settle
  send_work m =
      if P.queue.len m.pending == 0
      then some (m, none, some (fresh "no TaskEvent left in the pending queue"))
      else (let (target, rest) = P.queue.dequeue m.pending in
          elim target [
            | none ↦ none
            | some te ↦ elim (attempt (record m { pending = rest }) te) [
              | none ↦ none
              | some a ↦ let (m', te', e) = settle te.task a in some (m', some te', e)
            ]
          ])

  unfoldable pub add_task_event : Manager P → TaskEvent → Manager P
  add_task_event m te = record m { pending = P.queue.enqueue te m.pending }
