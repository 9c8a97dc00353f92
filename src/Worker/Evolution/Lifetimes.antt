-- ===== src/Worker/Evolution/Lifetimes.antt =====
-- internal/app/worker: the steps of a worker that runs: the requests of handler.go, and the rounds of
-- the two loops of worker.go. A round of `updateTasks` takes no lock, but is one step here; a task
-- that is stopped in the middle of one is in Worker/Races.
use netbula.Base.{
  ℕ, ◌<◌, ◌⊎◌, String, ◌≡◌, ◌≢◌, sym, ◌∙◌, subst, inl, inr, none, some, List, [], ◌∷◌, ◌++◌, arith,
  string_eq, Option-cases, All,
}
use netbula.Base.Result.{ok}
use netbula.Store.{IsLawful, IsHanding}
use netbula.Task.{pending, completed, Task, TaskEvent}
use netbula.Task.Lifecycle.{History, rank, History-rank}
use netbula.Queue.{IsFifo, head?, tail}
use netbula.Worker.{Parts, Worker, add_task, run_task, update_tasks}
use netbula.Worker.Rounds.{run_task-queue}
use netbula.Worker.Handlers.{start_task_handler, stop_task_handler, parse_or_nil}
use netbula.Worker.Evolution.{Sound, Grown, Grown-refl, Grown-trans}
use netbula.Worker.Evolution.Steps.{run_task-Grown}
use netbula.Worker.Evolution.Checks.{update_tasks-Grown}

module _ (P : Parts) where
  -- What may happen next. A task that the manager sends is not Pending: it is Scheduled by
  -- `AssignTaskToWorker`. Docker's containers may change by themselves at any time.
  pub data Step (w : Worker P) : Worker P → Type 0 where
    asked_to_start :
        (te : TaskEvent) → te.task.state ≢ pending → Step w (start_task_handler P w (ok te)).0
    asked_to_stop : (task_id : String) → Step w (stop_task_handler P w task_id).0
    ran : (now : ℕ) → Step w (run_task P w now).0
    checked : (w' : Worker P) → update_tasks P w ≡ some w' → Step w w'
    elapsed : (daemon : P.docker.Daemon) → Step w (record w { daemon = daemon })

  pub data Reaches (w : Worker P) : Worker P → Type 0 where
    start : Reaches w w
    step : {w' w'' : Worker P} → Reaches w w' → Step w' w'' → Reaches w w''

  abbrev pub Begun : Task → Type 0
  Begun t = t.state ≢ pending

  update_tasks-queue : (w w' : Worker P) → update_tasks P w ≡ some w' → w.queue ≡ w'.queue
  unfolding update_tasks
  update_tasks-queue w w' h = ground arith

  All-append : (ts : List Task) (t : Task) → All Begun ts → Begun t → All Begun (ts ++ t ∷ [])
  All-append [] t h b = (b, tt)
  All-append (x ∷ ts) t h b = (h.0, All-append ts t h.1 b)

  All-tail : (ts : List Task) → All Begun ts → All Begun (tail ts)
  All-tail [] h = tt
  All-tail (x ∷ ts) h = h.1

  All-head? : (ts : List Task) (t : Task) → All Begun ts → head? ts ≡ some t → Begun t
  All-head? [] t h e = absurd (ground arith)
  All-head? (x ∷ ts) t h e = λ p. h.0 (ground arith)

  module _ {TaskOk : P.tasks.State → Type 0} (tasks : IsLawful P.tasks TaskOk)
      (handing : IsHanding P.tasks TaskOk) (fifo : IsFifo P.queue) where
    -- What a step keeps, and what it does to the tasks.
    abbrev Runs : Worker P → Worker P → Type 0
    Runs w w' = All Begun (P.queue.contents w'.queue) × Grown P tasks w.task_db w'.task_db

    add_task-Runs :
        (w : Worker P) (t : Task)
        → Sound P tasks w.task_db
        → All Begun (P.queue.contents w.queue)
        → Begun t
        → Runs w (add_task P w t)
    unfolding add_task
    add_task-Runs w t sound begun b = (
      subst (All Begun) (sym (fifo.contents-enqueue t w.queue))
          (All-append (P.queue.contents w.queue) t begun b),
      Grown-refl P tasks w.task_db sound,
    )

    stop_task_handler-Runs :
        (w : Worker P) (task_id : String)
        → Sound P tasks w.task_db
        → All Begun (P.queue.contents w.queue)
        → Runs w (stop_task_handler P w task_id).0
    unfolding stop_task_handler add_task
    stop_task_handler-Runs w task_id sound begun =
        let (found, e) = P.tasks.get (P.uuids.to_string (parse_or_nil P task_id)) w.task_db in
        elim (Option-cases found) [
          | inl p ↦ elim (Option-cases e) [
            | inl q ↦
                let same : w ≡ (stop_task_handler P w task_id).0 = ground arith in
                subst (Runs w) same (begun, Grown-refl P tasks w.task_db sound)
            | inr (f, q) ↦
                let same : w ≡ (stop_task_handler P w task_id).0 = ground arith in
                subst (Runs w) same (begun, Grown-refl P tasks w.task_db sound)
          ]
          | inr (t, p) ↦
              let stopped : Task = record t { state = completed } in
              let queued : add_task P w stopped ≡ (stop_task_handler P w task_id).0 =
                ground arith in
              subst (Runs w) queued (add_task-Runs w stopped sound begun (ground arith))
        ]

    Step-Runs :
        {w w' : Worker P}
        → Sound P tasks w.task_db
        → All Begun (P.queue.contents w.queue)
        → Step w w'
        → Runs w w'
    unfolding start_task_handler update_tasks
    Step-Runs {w} sound begun (asked_to_start te b) = add_task-Runs w te.task sound begun b
    Step-Runs {w} sound begun (asked_to_stop task_id) = stop_task_handler-Runs w task_id sound begun
    Step-Runs {w} sound begun (ran now) = (
      subst (All Begun) (sym (run_task-queue P fifo w now))
          (All-tail (P.queue.contents w.queue) begun),
      run_task-Grown P tasks w now sound (λ t h.
          All-head? (P.queue.contents w.queue) t begun (sym (fifo.dequeue-head? w.queue) ∙ h)),
    )
    Step-Runs {w} sound begun (checked w' h) = (
      subst (λ q. All Begun (P.queue.contents q)) (update_tasks-queue w w' h) begun,
      update_tasks-Grown P tasks handing w w' sound h,
    )
    Step-Runs {w} sound begun (elapsed daemon) = (begun, Grown-refl P tasks w.task_db sound)

    Reaches-Runs :
        {w w' : Worker P}
        → Sound P tasks w.task_db
        → All Begun (P.queue.contents w.queue)
        → Reaches w w'
        → Runs w w'
    Reaches-Runs {w} sound begun start = (begun, Grown-refl P tasks w.task_db sound)
    Reaches-Runs {w} sound begun (step {w'} {w''} past s) =
        let (begun', grown) = Reaches-Runs sound begun past in
        let (begun'', next) = Step-Runs grown.0 begun' s in
        (begun'', Grown-trans P tasks w.task_db w'.task_db w''.task_db grown next)

    -- Whatever requests, rounds of the two loops and changes of Docker's containers a worker goes
    -- through, in any order and one at a time, each task that it stores stays stored, under the same key and in a
    -- state that valid transitions, or none, lead to from the state it had; so it never goes back,
    -- and stays in its state or climbs to a later rank: Pending, Scheduled, Running, and then
    -- Completed or Failed. This holds from a
    -- store that can be read, in which each task is stored under its own id, if no stored task, no
    -- queued task and no task that the worker is asked to start is Pending.
    pub reached_task-History :
        (w w' : Worker P) (k : String) (t : Task)
        → Sound P tasks w.task_db
        → All Begun (P.queue.contents w.queue)
        → Reaches w w'
        → P.tasks.get k w.task_db ≡ (some t, none)
        → (t' : Task) × (P.tasks.get k w'.task_db ≡ (some t', none))
          × History t.state t'.state
          × ((rank t.state < rank t'.state) ⊎ (t.state ≡ t'.state))
    reached_task-History w w' k t sound begun past got =
        let (t', got', history) = (Reaches-Runs sound begun past).1.1 k t got in
        (t', got', history, History-rank history)
