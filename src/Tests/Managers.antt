-- ===== src/Tests/Managers.antt =====
-- A manager that takes an order, sends it, synchronises, and takes in nobody.
use netbula.Base.{ℕ, String, refl, inl, some, [], ◌∷◌, string_eq, nat_eq}
use netbula.Base.Dict.{insert, lookup}
use netbula.Base.Result.{Result, ok, err, fresh}
use netbula.Task.{Task}
use netbula.Store.Memory.{memory_store-IsLawful, put, get}
use netbula.Scheduler.Epvm.{select_candidate_nodes}
use netbula.Manager.State.{update_task_event, get_assigned_worker, get_worker_ids, update_task}
use netbula.Manager.State.Invariant.{Inv}
use netbula.Manager.Cluster.{update_worker_nodes, get_nodes, sync_tasks, sync_from}
use netbula.Manager.Core.{Manager, send_work, select_worker, update_tasks}
use netbula.Manager.Api.{tasks_post, authenticate}
use netbula.Manager.Boot.Arrivals.{take_in}
use netbula.Manager.System.{
  Reaches, start, step, asked, sent, synced, connected, reached_manager-Inv,
}
use netbula.Tests.Examples.{Unique, empty-Inv}
use netbula.Tests.Orders.{manager_parts, request, manager, drained, no_candidates, ordered, created}
use netbula.Tests.Samples.{memory_store-Reliable, unary, unary-IsUuids, fifo-IsFifo, memory}

abbrev anonymous : String → Result (ℕ × String)
anonymous body = err (fresh "no name")

abbrev served : Manager manager_parts
served = record drained { pending = request ∷ [] }

served_path : Reaches manager_parts "secret" anonymous manager served
unfolding send_work nat_eq update_task_event put get_assigned_worker get lookup select_worker
    update_worker_nodes get_worker_ids select_candidate_nodes get_nodes update_task insert
    authenticate string_eq update_tasks sync_tasks sync_from take_in
served_path =
    step
      (step
        (step (step start (asked "secret" (tasks_post (ok request)) 8 0 ordered created refl))
          (sent served request (some request) (some no_candidates) refl (inl (refl, refl)) refl))
        (synced tt))
      (connected (err (fresh "no connection")) served refl)

reached_manager-Inv_example : Inv unary memory Unique Unique drained.state
reached_manager-Inv_example =
    reached_manager-Inv manager_parts unary-IsUuids (memory_store-IsLawful Task)
      (memory_store-IsLawful ℕ) (memory_store-Reliable Task) (memory_store-Reliable ℕ)
      (fifo-IsFifo _) "secret" anonymous manager served empty-Inv served_path
