-- ===== src/Worker/Rounds.antt =====
-- internal/app/worker/worker.go: the rounds of `RunTasksForever`.
use netbula.Base.{
  ℕ, ◌≡◌, ap, ◌++◌, ◌∙◌, inl, inr, List, [], ◌∷◌, arith, length, nat_eq, Option-cases,
}
use netbula.Task.{State, Task}
use netbula.Queue.{IsFifo, tail}
use netbula.Worker.{
  Parts, Worker, put_unchecked, run_task, run_rounds, transition_task, execute, dispatch,
  start_task, stop_task,
}

module _ (P : Parts) where
  dispatch-queue :
      (s : State) (w : Worker P) (t : Task) (now : ℕ) → (dispatch P s w t now).0.queue ≡ w.queue
  unfolding dispatch start_task stop_task
  dispatch-queue s w t now = ground arith

  execute-queue :
      (w : Worker P) (t queued : Task) (now : ℕ) → (execute P w t queued now).0.queue ≡ w.queue
  unfolding execute
  execute-queue w t queued now = ground (arith, dispatch-queue queued.state w queued now)

  transition_task-queue :
      (w : Worker P) (t : Task) (now : ℕ) → (transition_task P w t now).0.queue ≡ w.queue
  unfolding transition_task
  transition_task-queue w t now =
      elim (Option-cases (P.tasks.get (P.uuids.to_string t.id) w.task_db).1) [
        | inr (e, p) ↦ ground arith
        | inl p ↦ elim (Option-cases (P.tasks.get (P.uuids.to_string t.id) w.task_db).0) [
          | inr (x, q) ↦ ground (arith, execute-queue w x t now)
          | inl q ↦
              let stored : Worker P = record w { task_db = put_unchecked P t w.task_db } in
              ground (arith, execute-queue stored t t now)
        ]
      ]

  module _ (fifo : IsFifo P.queue) where
    pub run_task-queue :
        (w : Worker P) (now : ℕ)
        → P.queue.contents (run_task P w now).0.queue ≡ tail (P.queue.contents w.queue)
    unfolding run_task
    run_task-queue w now =
        let popped : Worker P = record w { queue = (P.queue.dequeue w.queue).1 } in
        let dropped = fifo.dequeue-tail w.queue in
        elim (Option-cases (P.queue.dequeue w.queue).0) [
          | inl p ↦ ground arith
          | inr (t, p) ↦ ground (arith, transition_task-queue popped t now)
        ]

    -- As many rounds of `RunTasksForever` as there are tasks `due` at the head of the queue take
    -- exactly those off it, whether or not their containers start or stop.
    pub run_rounds-served :
        (times : List ℕ) (due rest : List Task) (w : Worker P)
        → P.queue.contents w.queue ≡ due ++ rest
        → length times ≡ length due
        → P.queue.contents (run_rounds P times w).queue ≡ rest
    unfolding run_rounds
    run_rounds-served [] [] rest w h n = h
    run_rounds-served [] (t ∷ due) rest w h n = absurd (omega (arith, n))
    run_rounds-served (now ∷ times) [] rest w h n = absurd (omega (arith, n))
    run_rounds-served (now ∷ times) (t ∷ due) rest w h n =
        let busy = fifo.len-length w.queue in
        let next = run_task-queue w now ∙ ap tail h in
        let rounds =
          run_rounds-served times due rest (run_task P w now).0 next (omega (arith, n)) in
        ground (arith, rounds, busy)
