-- ===== src/Worker/Evolution/Steps.antt =====
-- internal/app/worker/worker.go: how the stored tasks change when a queued task is executed.
use netbula.Base.{
  ℕ, ◌≡◌, ◌≢◌, sym, subst, inl, inr, true, none, some, arith, string_eq, ==-refl, Bool-cases,
  Option-cases,
}
use netbula.Base.Result.{Result-cases}
use netbula.Store.{IsLawful}
use netbula.Task.{
  State, pending, scheduled, running, completed, failed, Task, valid_state_transition,
}
use netbula.Task.Lifecycle.{valid-History}
use netbula.Worker.{
  Parts, Worker, key, put_unchecked, start_task, stop_task, dispatch, execute, transition_task,
  run_task,
}
use netbula.Worker.Evolution.{Sound, Grown, Grown-trans, Grown-refl, put_unchecked-Grown}

starting :
    (s : State)
    → s ≢ pending
    → valid_state_transition s scheduled ≡ true
    → valid_state_transition s running ≡ true
unfolding valid_state_transition
starting s n v = ground arith

module _ (P : Parts) {TaskOk : P.tasks.State → Type 0} (tasks : IsLawful P.tasks TaskOk) where
  dispatch-Grown :
      (s : State) (w : Worker P) (t : Task) (now : ℕ)
      → Sound P tasks w.task_db
      → ((x : Task)
          → P.tasks.get (key P t) w.task_db ≡ (some x, none)
          → valid_state_transition x.state s ≡ true)
      → Grown P tasks w.task_db (dispatch P s w t now).0.task_db
  unfolding dispatch start_task stop_task
  dispatch-Grown scheduled w t now sound allowed =
      put_unchecked-Grown P tasks _ w.task_db sound (ground arith) (λ x g.
        valid-History x.state running (starting x.state (sound.begun (key P t) x g) (allowed x g)))
  dispatch-Grown completed w t now sound allowed =
      put_unchecked-Grown P tasks _ w.task_db sound (ground arith)
        (λ x g. valid-History x.state completed (allowed x g))
  dispatch-Grown pending w t now sound allowed = Grown-refl P tasks w.task_db sound
  dispatch-Grown running w t now sound allowed = Grown-refl P tasks w.task_db sound
  dispatch-Grown failed w t now sound allowed = Grown-refl P tasks w.task_db sound

  execute-Grown :
      (w : Worker P) (t queued : Task) (now : ℕ)
      → Sound P tasks w.task_db
      → ((x : Task) → P.tasks.get (key P queued) w.task_db ≡ (some x, none) → x ≡ t)
      → Grown P tasks w.task_db (execute P w t queued now).0.task_db
  unfolding execute
  execute-Grown w t queued now sound same =
      elim (Bool-cases (valid_state_transition t.state queued.state)) [
        | inr v ↦ rw v (Grown-refl P tasks w.task_db sound)
        | inl v ↦ rw v (
            dispatch-Grown queued.state w queued now sound (λ x g.
              subst (λ y. valid_state_transition y.state queued.state ≡ true) (sym (same x g)) v))
      ]

  put_unchecked-same :
      (t x : Task) (db : P.tasks.State)
      → Sound P tasks db
      → P.tasks.get (key P t) db ≡ (none, none)
      → P.tasks.get (key P t) (put_unchecked P t db) ≡ (some x, none)
      → x ≡ t
  put_unchecked-same t x db sound g h = elim (Result-cases (P.tasks.put (key P t) t db)) [
    | inl (e, p) ↦ ground arith
    | inr (db', p) ↦
        ground (arith, tasks.get-put (key P t) (key P t) t db db' p sound.valid, ==-refl (key P t))
  ]

  transition_task-Grown :
      (w : Worker P) (t : Task) (now : ℕ)
      → Sound P tasks w.task_db
      → t.state ≢ pending
      → Grown P tasks w.task_db (transition_task P w t now).0.task_db
  unfolding transition_task
  transition_task-Grown w t now sound begun =
      elim (Option-cases (P.tasks.get (key P t) w.task_db).1) [
        | inr (e, p) ↦
            subst (Grown P tasks w.task_db) (ground arith) (Grown-refl P tasks w.task_db sound)
        | inl p ↦ elim (Option-cases (P.tasks.get (key P t) w.task_db).0) [
          | inr (x, q) ↦
              subst (Grown P tasks w.task_db) (ground arith)
                (execute-Grown w x t now sound (λ y g. ground arith))
          | inl q ↦
              let stored : Worker P = record w { task_db = put_unchecked P t w.task_db } in
              let put =
                put_unchecked-Grown P tasks t w.task_db sound begun
                  (λ x g. absurd (ground arith)) in
              let got : P.tasks.get (key P t) w.task_db ≡ (none, none) = ground arith in
              subst (Grown P tasks w.task_db) (ground arith) (
                Grown-trans P tasks w.task_db stored.task_db _ put (
                  execute-Grown stored t t now put.0
                    (λ x g. put_unchecked-same t x w.task_db sound got g)))
        ]
      ]

  pub run_task-Grown :
      (w : Worker P) (now : ℕ)
      → Sound P tasks w.task_db
      → ((t : Task) → (P.queue.dequeue w.queue).0 ≡ some t → t.state ≢ pending)
      → Grown P tasks w.task_db (run_task P w now).0.task_db
  unfolding run_task
  run_task-Grown w now sound begun =
      let popped : Worker P = record w { queue = (P.queue.dequeue w.queue).1 } in
      elim (Option-cases (P.queue.dequeue w.queue).0) [
        | inl p ↦
            subst (Grown P tasks w.task_db) (ground arith) (Grown-refl P tasks w.task_db sound)
        | inr (t, p) ↦
            subst (Grown P tasks w.task_db) (ground arith)
              (transition_task-Grown popped t now sound (begun t p))
      ]
