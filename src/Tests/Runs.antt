-- ===== src/Tests/Runs.antt =====
-- Runs of the worker.
use netbula.Base.{
  String, ◌≡◌, ◌≢◌, refl, ◌⊎◌, Option, none, some, [], ◌∷◌, contains, Distinct, string_eq, nat_eq,
}
use netbula.Base.Dict.{keys, values, lookup}
use netbula.Base.Result.{Err, fresh, ok}
use netbula.Task.{State, pending, scheduled, running, completed, Task}
use netbula.Store.Memory.{memory_store, memory_store-IsLawful}
use netbula.Store.Persistent.{persistent_store, list, entries, count, decode_all, write_through}
use netbula.Docker.{run, inspect, failure}
use netbula.Http.{status_no_content}
use netbula.Worker.{Parts, Worker, run_rounds, transition_task, update_tasks, update_one}
use netbula.Worker.Transitions.{Shows, transition_task_start_error}
use netbula.Worker.Monitor.{update_tasks_detached}
use netbula.Worker.Rounds.{run_rounds-served}
use netbula.Worker.Handlers.{stop_task_handler, Refused, stop_task_handler_lem}
use netbula.Store.Persistent
use netbula.Tests.Samples.{
  unary, unary-IsUuids, ticks, plain, fifo, fifo-IsFifo, job, docker, bucket, memory_store-Reliable,
}

abbrev pub parts : Option Err → Parts
parts e = record {
  uuids = unary;
  floats = plain;
  queue = fifo Task;
  tasks = memory_store Task;
  docker = docker e;
}

abbrev pub worker : (e : Option Err) → State → Worker (parts e)
worker e s = record {
  name = "east";
  uuid = 5;
  queue = [];
  task_db = (ticks 3, job s) ∷ [];
  daemon = tt;
}

pub worker-Distinct : (s : State) → Distinct (keys ((ticks 3, job s) ∷ []))
unfolding keys contains
worker-Distinct s = (refl, tt)

abbrev no_image : Err
no_image = fresh "no such image"

-- A worker that has stored no task.
abbrev idle : Worker (parts (some no_image))
idle = record (worker (some no_image) scheduled) { task_db = [] }

no_task-Distinct : Distinct (keys {K = String} {V = Task} [])
unfolding keys
no_task-Distinct = tt

transition_task_start_error_example :
    let stored = ((memory_store Task).get (ticks 3) idle.task_db).0 in
    ((t : Task) × (stored ≡ some t)
      × (t.state ≢ pending)
      × (t.state ≢ scheduled)
      × (transition_task (parts (some no_image)) idle (job scheduled) 7
          ≡ (idle, failure (some (fresh "invalid transition")))))
    ⊎ (((stored ≡ none)
          ⊎ ((t : Task) × (stored ≡ some t) × ((t.state ≡ pending) ⊎ (t.state ≡ scheduled))))
        × Shows
            (parts (some no_image))
            (memory_store-IsLawful Task)
            (memory_store-Reliable Task)
            no_image
            (job scheduled)
            7
            (transition_task (parts (some no_image)) idle (job scheduled) 7))
unfolding run
transition_task_start_error_example =
    transition_task_start_error (parts (some no_image)) (memory_store-IsLawful Task)
      (memory_store-Reliable Task) idle (job scheduled) 7 no_image no_task-Distinct refl refl

-- A store on disk whose one task is Running.
abbrev disk_parts : Parts
disk_parts = record (parts none) {
  tasks =
      persistent_store (bucket none)
        (record { marshal = λ t. ok "job"; unmarshal = λ b. (job running, none) });
}

one_row-Distinct : Distinct (keys {V = String} ((ticks 3, "job") ∷ []))
unfolding keys contains
one_row-Distinct = (refl, tt)

abbrev disk_worker : Worker disk_parts
disk_worker = record {
  name = "east";
  uuid = 5;
  queue = [];
  task_db = ((ticks 3, "job") ∷ [], one_row-Distinct);
  daemon = tt;
}

update_tasks_detached_example : disk_worker ≡ disk_worker
unfolding list count write_through update_tasks netbula.Store.Persistent.get lookup string_eq
    inspect decode_all values keys update_one
update_tasks_detached_example =
    update_tasks_detached disk_parts (λ k t db. refl) disk_worker disk_worker (job running ∷ [])
      refl ((λ e. (record { status = "exited"; ports = "80" }, refl)), tt) refl

stop_task_handler_lem_example :
    let w = worker none running in
    let (w', replies) = stop_task_handler (parts none) w (ticks 3) in
    ((t : Task) × (((memory_store Task).get (ticks 3) w.task_db).0 ≡ some t)
      × ((fifo Task).contents w'.queue ≡ record t { state = completed } ∷ [])
      × (w'.task_db ≡ w.task_db)
      × (replies ≡ record { status_code = status_no_content; body = none } ∷ []))
    ⊎ ((((memory_store Task).get (ticks 3) w.task_db).0 ≡ none)
        × Refused (parts none) w (stop_task_handler (parts none) w (ticks 3)))
stop_task_handler_lem_example =
    stop_task_handler_lem (parts none) (fifo-IsFifo Task) unary-IsUuids (worker none running) 3

-- Two tasks wait for a worker that does not know the image; one round is run.
run_rounds-served_example :
    let w = record (worker (some no_image) running) { queue = job completed ∷ job running ∷ [] } in
    (run_rounds (parts (some no_image)) (7 ∷ []) w).queue ≡ job running ∷ []
run_rounds-served_example =
    run_rounds-served (parts (some no_image)) (fifo-IsFifo Task) (7 ∷ []) (job completed ∷ [])
      (job running ∷ [])
      (record (worker (some no_image) running) { queue = job completed ∷ job running ∷ [] }) refl
      refl
