-- ===== src/Worker/Transitions.antt =====
-- internal/app/worker/worker.go: what `transitionTask` does to the stored tasks.
use netbula.Base.{
  ℕ, ◌≡◌, ◌≢◌, ◌⊎◌, inl, inr, true, false, none, some, arith, sym, subst, string_eq, Option-cases,
  ==-refl,
}
use netbula.Base.Result.{Err, fresh}
use netbula.Store.{IsLawful, Reliable}
use netbula.Task.{
  State, pending, scheduled, running, completed, failed, Task, valid_state_transition, new_config,
}
use netbula.Docker.{DockerResult, run, failure}
use netbula.Worker.{Parts, Worker, key, start_task, dispatch, execute, transition_task}

startable :
    (s : State)
    → ((valid_state_transition s scheduled ≡ true) × ((s ≡ pending) ⊎ (s ≡ scheduled)))
      ⊎ ((valid_state_transition s scheduled ≡ false) × (s ≢ pending) × (s ≢ scheduled))
unfolding valid_state_transition
startable pending = inl (ground arith, inl (ground arith))
startable scheduled = inl (ground arith, inr (ground arith))
startable running = inr (ground arith, λ p. ground arith, λ p. ground arith)
startable completed = inr (ground arith, λ p. ground arith, λ p. ground arith)
startable failed = inr (ground arith, λ p. ground arith, λ p. ground arith)

module _ (P : Parts) {TaskOk : P.tasks.State → Type 0} (tasks : IsLawful P.tasks TaskOk)
    (reliable : Reliable P.tasks) where
  -- What the task is stored as when its start has failed.
  abbrev pub not_started : Task → ℕ → Task
  not_started queued now = record queued { start_time = now; container_id = ""; state = running }

  abbrev pub Shows : Err → Task → ℕ → Worker P × DockerResult → Type 0
  Shows e queued now (w', result) =
      (result.error ≡ some e)
      × (P.tasks.get (key P queued) w'.task_db ≡ (some (not_started queued now), none))

  start_task-Shows :
      (w : Worker P) (queued : Task) (now : ℕ) (e : Err)
      → TaskOk w.task_db
      → (run P.floats P.docker (new_config (record queued { start_time = now })) w.daemon).1
        ≡ failure (some e)
      → Shows e queued now (start_task P w queued now)
  unfolding start_task
  start_task-Shows w queued now e valid r =
      let (db, p) = reliable.writes (key P queued) (not_started queued now) w.task_db in
      (
        ground arith,
        ground (
          arith,
          tasks.get-put (key P queued) (key P queued) (not_started queued now) w.task_db db p valid,
          ==-refl (key P queued),
        ),
      )

  -- A start whose container does not start: if the task was stored in a state other than Pending
  -- and Scheduled, then nothing changes and the result says that the transition is invalid; if it
  -- was not stored yet, or was Pending or Scheduled, then the result carries Docker's error, but
  -- the task is stored as Running, with no container id. The store of tasks does not fail.
  pub transition_task_start_error :
      (w : Worker P) (queued : Task) (now : ℕ) (e : Err)
      → TaskOk w.task_db
      → queued.state ≡ scheduled
      → (run P.floats P.docker (new_config (record queued { start_time = now })) w.daemon).1
        ≡ failure (some e)
      → let stored = (P.tasks.get (key P queued) w.task_db).0 in
        ((t : Task) × (stored ≡ some t)
          × (t.state ≢ pending)
          × (t.state ≢ scheduled)
          × (transition_task P w queued now ≡ (w, failure (some (fresh "invalid transition")))))
        ⊎ (((stored ≡ none)
              ⊎ ((t : Task) × (stored ≡ some t) × ((t.state ≡ pending) ⊎ (t.state ≡ scheduled))))
            × Shows e queued now (transition_task P w queued now))
  unfolding transition_task execute dispatch
  transition_task_start_error w queued now e valid s r =
      let k = key P queued in
      let fine = reliable.reads k w.task_db in
      elim (Option-cases ((P.tasks.get k w.task_db).0)) [
        | inl g ↦
            let (db, p) = reliable.writes k queued w.task_db in
            let w₁ : Worker P = record w { task_db = db } in
            let fit = startable queued.state in
            let same : transition_task P w queued now ≡ start_task P w₁ queued now = ground arith in
            inr (
              inl g,
              subst (Shows e queued now) (sym same) (
                  start_task-Shows w₁ queued now e (tasks.put-IsValid k queued w.task_db db p valid)
                    r),
            )
        | inr (t, g) ↦ elim (startable t.state) [
          | inr (refused, a, b) ↦ inl (t, g, a, b, ground arith)
          | inl (allowed, a) ↦
              let same : transition_task P w queued now ≡ start_task P w queued now =
                ground arith in
              inr (
                inr (t, g, a),
                subst (Shows e queued now) (sym same) (start_task-Shows w queued now e valid r),
              )
        ]
      ]
