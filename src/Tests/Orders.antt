-- ===== src/Tests/Orders.antt =====
-- Runs of the manager: the API, `SendWork` and `SyncTasks`.
use netbula.Base.{
  String, ◌≡◌, refl, subst, inl, ℕ, ◌≤◌, ◌++◌, length, true, false, Option, some, List, [], ◌∷◌,
  arith, string_eq, nat_eq,
}
use netbula.Base.Dict.{insert, lookup}
use netbula.Base.Result.{Err, fresh, wrap, ok}
use netbula.Task.{pending, scheduled, running, Task, TaskEvent, valid_state_transition}
use netbula.Task.Lifecycle.{valid-History}
use netbula.Store.Memory.{memory_store-IsLawful, put, get}
use netbula.Scheduler.Epvm.{epvm, select_candidate_nodes, pick}
use netbula.Manager.Core
use netbula.Manager.Core.{Manager, send_work, select_worker}
use netbula.Manager.State.{update_task_event, get_assigned_worker, get_worker_ids, update_task}
use netbula.Manager.Cluster.{update_worker_nodes, get_nodes}
use netbula.Http.{Reply, one_task}
use netbula.Manager.Api.{tasks_post, authenticate}
use netbula.Manager.Api.Access.{Served, is_accepted, authenticate-Served}
use netbula.Manager.Core.Counts.{send_work-Inv}
use netbula.Manager.State.Invariant.{Inv}
use netbula.Tests.Examples.{Unique, empty-Inv}
use netbula.Manager.Core.Totality.{Measured, Picks, send_work-total}
use netbula.Manager.Core.Loops.{
  Phase, measuring, sending, returned, Turn, add, go, Calls, send_tasks_forever,
}
use netbula.Manager.Core.Draining.{Uncancelled, send_tasks_forever-drains}
use netbula.Manager.Core.Cancelling.{send_tasks_forever-returns}
use netbula.Manager.Cluster.{Net, HttpClientCluster, sync_tasks, fetch_tasks}
use netbula.Manager.Cluster.Sync.{Expected, AllExpected, sync_tasks-Inv}
use netbula.Manager.State.{MappingStorage}
use netbula.Tests.Examples.{linked_state, linked-Inv, ok-injective}
use netbula.Manager.Core.Events.{Taken, send_work-Taken}
use netbula.Tests.Samples.{
  memory_store-Reliable, unary, unary-IsUuids, ticks, plain, fifo, fifo-IsFifo, memory, job, silent,
}

abbrev pub manager_parts : netbula.Manager.Core.Parts
manager_parts = record {
  uuids = unary;
  stores = memory;
  net = silent;
  queue = fifo TaskEvent;
  scheduler = epvm plain;
}

abbrev pub request : TaskEvent
request = record { id = 9; target_state = scheduled; timestamp = 0; task = job pending }

-- A manager without workers, with one event in its queue.
abbrev pub manager : Manager manager_parts
manager = record {
  state = record {
    task_db = [];
    event_db = [];
    task_worker_db = [];
    worker_name_db = [];
    workers = [];
    worker_task_map = [];
    worker_active_task_count_map = [];
  };
  worker_cluster = record { worker_client_map = []; worker_nodes = []; notices = [] };
  pending = request ∷ [];
  scheduler = tt;
  world = tt;
}

abbrev pub drained : Manager manager_parts
drained = record manager {
  state = record manager.state { event_db = (ticks 9, request) ∷ [] };
  pending = [];
}

abbrev pub no_candidates : Err
no_candidates =
    wrap "failed to schedule the task"
      (fresh "no available candidates match resource request for task")

send_work-Taken_example :
    Taken manager_parts (request ∷ []) manager (drained, some request, some no_candidates)
unfolding send_work nat_eq update_task_event put get_assigned_worker get lookup select_worker
    update_worker_nodes get_worker_ids select_candidate_nodes get_nodes update_task insert
send_work-Taken_example =
    send_work-Taken manager_parts (fifo-IsFifo TaskEvent) manager drained (some request)
      (some no_candidates) refl

abbrev pub ordered : Manager manager_parts
ordered = record manager { pending = request ∷ request ∷ [] }

abbrev pub created : List Reply
created = record { status_code = 201; body = some (one_task (job pending)) } ∷ []

authenticate-Served_example :
    Served manager_parts manager (ordered, created)
    × (is_accepted created ≡ true → ◌≡◌ {A = String} "secret" "secret")
unfolding authenticate string_eq
authenticate-Served_example =
    authenticate-Served manager_parts (fifo-IsFifo TaskEvent) "secret" "secret" manager
      (tasks_post (ok request)) 8 0 (ordered, created) refl

send_work-Inv_example : Inv unary memory Unique Unique drained.state
unfolding send_work nat_eq update_task_event put get_assigned_worker get lookup select_worker
    update_worker_nodes get_worker_ids select_candidate_nodes get_nodes update_task insert
send_work-Inv_example =
    send_work-Inv manager_parts unary-IsUuids (memory_store-IsLawful Task) (memory_store-IsLawful ℕ)
      (memory_store-Reliable Task) (memory_store-Reliable ℕ) (fifo-IsFifo TaskEvent) manager drained
      request (some request) (some no_candidates) empty-Inv refl (inl (refl, refl)) refl

silent-Measured : Measured manager_parts
silent-Measured body s h = ground arith

epvm-Picks : Picks manager_parts
unfolding pick
epvm-Picks s t c cs = (s, _, _, refl, refl)

send_work-total_example :
    (r : Manager manager_parts × Option TaskEvent × Option Err) × (send_work manager_parts manager
      ≡ some r)
send_work-total_example =
    send_work-total manager_parts silent-Measured epvm-Picks (fifo-IsFifo TaskEvent) manager

abbrev turns : List Turn
turns = go false ∷ add request ∷ go false ∷ []

send_tasks_forever-drains_example :
    (phase' : Phase) × (m' : Manager manager_parts) × (sent : List TaskEvent) × (send_tasks_forever
        manager_parts turns measuring manager
      ≡ some (phase', m'))
    × Calls manager_parts manager (request ∷ []) sent m'
    × (request ∷ request ∷ [] ≡ sent ++ m'.pending)
    × (Uncancelled turns → 2 ≤ 2 → 1 ≤ length sent)
send_tasks_forever-drains_example =
    send_tasks_forever-drains manager_parts silent-Measured epvm-Picks (fifo-IsFifo TaskEvent) turns
      manager

send_tasks_forever-returns_example :
    (m' : Manager manager_parts) × (send_tasks_forever manager_parts
        (go true ∷ add request ∷ go true ∷ go true ∷ [])
        (sending 0)
        manager
      ≡ some (returned, m'))
    × (m'.state ≡ manager.state)
    × (m'.pending ≡ request ∷ request ∷ [])
send_tasks_forever-returns_example =
    send_tasks_forever-returns manager_parts (fifo-IsFifo TaskEvent)
      (go true ∷ add request ∷ go true ∷ go true ∷ []) (sending 0) manager
      (refl, (refl, (refl, tt))) (omega arith)

-- A network on which every worker reports the one task as Running.
abbrev reporting : Net
reporting = record silent {
  request = λ client method url body world. (world, ok (record { status_code = 200; body = "[]" }));
  decode_tasks = λ body. ok (job running ∷ []);
}

abbrev cluster : HttpClientCluster reporting
cluster = record { worker_client_map = (5, tt) ∷ []; worker_nodes = []; notices = [] }

abbrev staffed_state : MappingStorage memory
staffed_state = record linked_state { workers = 5 ∷ [] }

staffed-Inv : Inv unary memory Unique Unique staffed_state
staffed-Inv = record {
  task_ok = linked-Inv.task_ok;
  link_ok = linked-Inv.link_ok;
  counted = linked-Inv.counted;
  once = linked-Inv.once;
  assigned = linked-Inv.assigned;
  listed = linked-Inv.listed;
  started = linked-Inv.started;
}

staffed-AllExpected : AllExpected unary memory reporting cluster (5 ∷ []) staffed_state tt
unfolding lookup fetch_tasks get string_eq nat_eq valid_state_transition
staffed-AllExpected = (
  λ client ts e p.
      subst (Expected unary memory staffed_state) (ok-injective p)
        ((λ x g. valid-History x.state running (ground arith)), tt),
  tt,
)

sync_tasks-Inv_example :
    Inv unary memory Unique Unique (sync_tasks reporting unary memory cluster staffed_state tt).1
unfolding get_worker_ids
sync_tasks-Inv_example =
    sync_tasks-Inv unary memory unary-IsUuids (memory_store-IsLawful Task)
      (memory_store-Reliable Task) reporting cluster staffed_state tt staffed-Inv
      staffed-AllExpected
