-- ===== src/Worker/Races.antt =====
-- internal/app/worker/worker.go: `updateTasks`, which takes no lock, while a task of its list is
-- stopped.
use netbula.Base.{ℕ, ◌≡◌, refl, false, none, some, arith, string_eq}
use netbula.Base.Result.{ok}
use netbula.Store.{IsLawful}
use netbula.Task.{running, completed, failed, Task, valid_state_transition}
use netbula.Docker.{inspect}
use netbula.Worker.{Parts, Worker, key, stop_task, dispatch, execute, transition_task, update_one}

module _ (P : Parts) {TaskOk : P.tasks.State → Type 0} (tasks : IsLawful P.tasks TaskOk) where
  -- What is stored once a running task was stopped.
  abbrev pub stopped : Task → ℕ → Task
  stopped t now = record t { finish_time = now; state = completed }

  transition_task-stopped :
      (w : Worker P) (t : Task) (now : ℕ) (db : P.tasks.State)
      → P.tasks.get (key P t) w.task_db ≡ (some t, none)
      → t.state ≡ running
      → P.tasks.put (key P t) (stopped t now) w.task_db ≡ ok db
      → (transition_task P w (record t { state = completed }) now).0.task_db ≡ db
  unfolding transition_task execute dispatch stop_task valid_state_transition
  transition_task-stopped w t now db got r put = ground arith

  -- If a task is stopped after `updateTasks` has listed it as Running and before its turn, and
  -- Docker does not know its container any more, then it is stored as Failed although it was stored
  -- as Completed, which `ValidStateTransition` forbids. Both writes succeed.
  pub update_one-stopped :
      (w : Worker P) (t : Task) (now : ℕ) (db db' : P.tasks.State)
      → TaskOk w.task_db
      → P.tasks.get (key P t) w.task_db ≡ (some t, none)
      → t.state ≡ running
      → P.tasks.put (key P t) (stopped t now) w.task_db ≡ ok db
      → P.tasks.put (key P t) (record t { finish_time = now; state = failed }) db ≡ ok db'
      → let w' = (transition_task P w (record t { state = completed }) now).0 in
        (inspect P.docker t.container_id w'.daemon).container ≡ none
        → (P.tasks.get (key P t) w'.task_db ≡ (some (stopped t now), none))
          × (update_one P w'.daemon w'.task_db t ≡ some db')
          × (P.tasks.get (key P t) db'
              ≡ (some (record t { finish_time = now; state = failed }), none))
          × (valid_state_transition completed failed ≡ false)
  unfolding update_one valid_state_transition
  update_one-stopped w t now db db' valid got r put put' gone =
      let e = transition_task-stopped w t now db got r put in
      let k = key P t in
      let valid' = tasks.put-IsValid k (stopped t now) w.task_db db put valid in
      let first = tasks.get-put k k (stopped t now) w.task_db db put valid in
      let second =
        tasks.get-put k k (record t { finish_time = now; state = failed }) db db' put' valid' in
      (ground (arith, e, first), ground (arith, e, first), ground (arith, second), refl)
