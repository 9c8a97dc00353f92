-- ===== src/Tests/Lifetimes.antt =====
-- A worker that stops a task.
use netbula.Base.{◌<◌, ◌⊎◌, ◌≡◌, refl, false, none, some, [], ◌∷◌, arith, ==-eq, string_eq}
use netbula.Base.Dict.{values, lookup, insert}
use netbula.Task.{running, completed, failed, Task, valid_state_transition}
use netbula.Base.Result.{err, fresh}
use netbula.Task.Lifecycle.{History, rank}
use netbula.Store.Memory.{
  memory_store, memory_store-IsLawful, memory_store-IsHanding, get, put, list,
}
use netbula.Docker.{stop, inspect}
use netbula.Worker.{
  Parts, Worker, stop_task, dispatch, execute, transition_task, run_task, add_task, update_one,
  update_all, update_tasks,
}
use netbula.Worker.Races.{update_one-stopped}
use netbula.Worker.Handlers.{stop_task_handler}
use netbula.Worker.Evolution.{Sound}
use netbula.Worker.Evolution.Lifetimes.{
  Reaches, start, step, asked_to_stop, ran, checked, reached_task-History,
}
use netbula.Tests.Samples.{fifo-IsFifo, docker, job, ticks}
use netbula.Tests.Runs.{parts, worker, worker-Distinct}

abbrev busy : Worker (parts none)
busy = worker none running

abbrev asked : Worker (parts none)
asked = (stop_task_handler (parts none) busy (ticks 3)).0

abbrev stopped : Worker (parts none)
stopped = (run_task (parts none) asked 7).0

busy-Sound : Sound (parts none) (memory_store-IsLawful Task) busy.task_db
unfolding get lookup
busy-Sound = record {
  valid = worker-Distinct running;
  keyed = λ k t g. ground (arith, ==-eq (ticks 3) k);
  begun = λ k t g. ground (arith, ==-eq (ticks 3) k);
}

stopped_path : Reaches (parts none) busy stopped
unfolding stop_task_handler add_task run_task transition_task execute dispatch stop_task stop get
    put list lookup insert values update_one update_all update_tasks string_eq
    valid_state_transition
stopped_path = step (step (step start (asked_to_stop (ticks 3))) (ran 7)) (checked stopped refl)

reached_task-History_example :
    (t' : Task) × ((memory_store Task).get (ticks 3) stopped.task_db ≡ (some t', none))
    × History running t'.state
    × ((rank running < rank t'.state) ⊎ (running ≡ t'.state))
unfolding get lookup string_eq
reached_task-History_example =
    reached_task-History (parts none) (memory_store-IsLawful Task) (memory_store-IsHanding Task)
      (fifo-IsFifo Task) busy stopped (ticks 3) (job running) busy-Sound tt stopped_path refl

-- A Docker client that knows no container.
abbrev forgetful : Parts
forgetful = record (parts none) {
  docker = record (docker none) { container_inspect = λ id d. err (fresh "No such container") };
}

abbrev crowded : Worker forgetful
crowded = record {
  name = "east";
  uuid = 5;
  queue = [];
  task_db = (ticks 3, job running) ∷ [];
  daemon = tt;
}

update_one-stopped_example :
    let w' = (transition_task forgetful crowded (job completed) 7).0 in
    let failure : Task = record (job failed) { finish_time = 7 } in
    ((memory_store Task).get (ticks 3) w'.task_db
      ≡ (some (record (job completed) { finish_time = 7 }), none))
    × (update_one forgetful w'.daemon w'.task_db (job running) ≡ some ((ticks 3, failure) ∷ []))
    × ((memory_store Task).get (ticks 3) ((ticks 3, failure) ∷ []) ≡ (some failure, none))
    × (valid_state_transition completed failed ≡ false)
unfolding get put lookup insert string_eq inspect
update_one-stopped_example =
    update_one-stopped forgetful (memory_store-IsLawful Task) crowded (job running) 7
      ((ticks 3, record (job completed) { finish_time = 7 }) ∷ [])
      ((ticks 3, record (job failed) { finish_time = 7 }) ∷ []) (worker-Distinct running) refl refl
      refl refl refl
