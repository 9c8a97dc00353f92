-- ===== src/Worker/Monitor.antt =====
-- internal/app/worker/worker.go: what `updateTasks` makes of the containers that it finds.
use netbula.Base.{
  String, ◌≡◌, ◌∙◌, inl, inr, some, List, [], ◌∷◌, arith, string_eq, if◌then◌else◌, Bool-cases,
  Option-cases,
}
use netbula.Base.Result.{ok}
use netbula.Task.{running, failed, state_eq, Task}
use netbula.Docker.{Container, inspect}
use netbula.Worker.{Parts, Worker, key, is_up, update_one, update_all, update_tasks}

-- Docker knows a container for every running task of the list.
abbrev pub AllFound : (P : Parts) → P.docker.Daemon → List Task → Type 0
AllFound P daemon [] = Unit
AllFound P daemon (t ∷ ts) =
    (t.state ≡ running
      → (c : Container) × (P.docker.container_inspect t.container_id daemon ≡ ok c))
    × AllFound P daemon ts

module _ (P : Parts)
    (detached : (k : String) (t : Task) (db : P.tasks.State)
      → P.tasks.write_through k t db ≡ db) where
  update_one_detached :
      (daemon : P.docker.Daemon) (db db' : P.tasks.State) (t : Task)
      → (t.state ≡ running
          → (c : Container) × (P.docker.container_inspect t.container_id daemon ≡ ok c))
      → update_one P daemon db t ≡ some db'
      → db' ≡ db
  unfolding update_one inspect
  update_one_detached daemon db db' t found h = elim (Bool-cases (state_eq t.state running)) [
    | inr n ↦ ground arith
    | inl r ↦
        let (c, p) = found (ground arith) in
        elim (Option-cases ((P.tasks.get (key P t) db).0)) [
          | inl g ↦ absurd (ground arith)
          | inr (x, g) ↦ ground (
            arith,
            detached (key P t)
                (record x {
                  state = if is_up c.status then x.state else failed;
                  port_bindings = c.ports;
                })
                db,
          )
        ]
  ]

  update_all_detached :
      (daemon : P.docker.Daemon) (db db' : P.tasks.State) (ts : List Task)
      → AllFound P daemon ts
      → update_all P daemon db ts ≡ some db'
      → db' ≡ db
  unfolding update_all
  update_all_detached daemon db db' [] f h = ground arith
  update_all_detached daemon db db' (t ∷ ts) f h = elim (Option-cases (update_one P daemon db t)) [
    | inl e ↦ absurd (ground arith)
    | inr (next, e) ↦
        let one = update_one_detached daemon db next t f.0 e in
        update_all_detached daemon next db' ts f.1 (ground arith) ∙ one
  ]

  -- With a store whose `Get` hands out copies, as the persistent store does, a run of `updateTasks`
  -- that does not panic changes nothing as long as Docker still knows the containers of the
  -- running tasks, whatever their status: a task whose container has exited stays Running, and no
  -- port binding is stored.
  pub update_tasks_detached :
      (w w' : Worker P) (ts : List Task)
      → P.tasks.list w.task_db ≡ ok ts
      → AllFound P w.daemon ts
      → update_tasks P w ≡ some w'
      → w' ≡ w
  unfolding update_tasks
  update_tasks_detached w w' ts l f h = elim (Option-cases (update_all P w.daemon w.task_db ts)) [
    | inl e ↦ absurd (ground arith)
    | inr (db, e) ↦ ground (arith, update_all_detached w.daemon w.task_db db ts f e)
  ]
