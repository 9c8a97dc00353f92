-- ===== src/Manager/Core/Loops.antt =====
-- internal/app/manager/manager.go: the loops of the manager, that of `SendTasksForever` with the API
-- adding events in between. `AddTaskEvent` and the steps of the loop do not overlap.
use netbula.Base.{
  ℕ, ◌≡◌, zero, suc, Bool, true, false, Option, none, some, List, [], ◌∷◌, ◌==◌, nat_eq,
  if◌then◌else◌,
}
use netbula.Base.Result.{Err}
use netbula.Task.{TaskEvent}
use netbula.Manager.Core.{Parts, Manager, send_work, update_tasks, add_task_event}

-- Where the loop stands: before `Pending.Len`, before the look at the context when nothing was
-- pending, within the inner loop with so many rounds left, or behind the `return`.
pub data Phase : Type 0 where
  measuring : Phase
  checking : Phase
  sending : ℕ → Phase
  returned : Phase

-- A call of the API, or a step of the loop with what `ctx.Err() != nil` is at that time.
pub data Turn : Type 0 where
  add : TaskEvent → Turn
  go : Bool → Turn

module _ (P : Parts) where
  -- The sleep after nothing was pending is left out.
  unfoldable pub loop_step : Phase → Bool → Manager P → Option (Phase × Manager P)
  loop_step measuring cancelled m =
      let n = P.queue.len m.pending in some (if n == 0 then checking else sending n, m)
  loop_step checking cancelled m = some (if cancelled then returned else measuring, m)
  loop_step (sending zero) cancelled m = some (measuring, m)
  loop_step (sending (suc n)) true m = some (returned, m)
  loop_step (sending (suc n)) false m = elim (send_work P m) [
    | none ↦ none
    | some (m', target, e) ↦ some (sending n, m')
  ]
  loop_step returned cancelled m = some (returned, m)

  unfoldable pub send_tasks_forever : List Turn → Phase → Manager P → Option (Phase × Manager P)
  unfolding loop_step add_task_event
  send_tasks_forever [] phase m = some (phase, m)
  send_tasks_forever (add te ∷ turns) phase m =
      send_tasks_forever turns phase (add_task_event P m te)
  send_tasks_forever (go cancelled ∷ turns) phase m = elim (loop_step phase cancelled m) [
    | none ↦ none
    | some (phase', m') ↦ send_tasks_forever turns phase' m'
  ]

  -- What the loop and the API have called: `AddTaskEvent` with these events, and `SendWork`, each
  -- call of which was about the event at the head of the queue.
  pub data Calls : Manager P → List TaskEvent → List TaskEvent → Manager P → Type 0 where
    no_call : {m : Manager P} → Calls m [] [] m
    sent_work :
        {m m₁ m' : Manager P} {adds sent : List TaskEvent} (te target : TaskEvent)
        (rest : List TaskEvent) (e : Option Err)
        → P.queue.contents m.pending ≡ te ∷ rest
        → send_work P m ≡ some (m₁, some target, e)
        → target.id ≡ te.id
        → Calls m₁ adds sent m'
        → Calls m adds (te ∷ sent) m'
    added_event :
        {m m' : Manager P} {adds sent : List TaskEvent} (te : TaskEvent)
        → Calls (add_task_event P m te) adds sent m'
        → Calls m (te ∷ adds) sent m'

  -- `UpdateTasksForever`, with what `ctx.Err() != nil` is in each round.
  unfoldable pub update_tasks_forever : List Bool → Manager P → Manager P
  update_tasks_forever [] m = m
  update_tasks_forever (true ∷ rounds) m = m
  update_tasks_forever (false ∷ rounds) m = update_tasks_forever rounds (update_tasks P m)

abbrev pub added : List Turn → List TaskEvent
added [] = []
added (add te ∷ turns) = te ∷ added turns
added (go cancelled ∷ turns) = added turns

abbrev pub steps : List Turn → ℕ
steps [] = 0
steps (add te ∷ turns) = steps turns
steps (go cancelled ∷ turns) = suc (steps turns)
