-- ===== src/Manager/Core/Cancelling.antt =====
-- internal/app/manager/manager.go: the end of `SendTasksForever`.
use netbula.Base.{
  ℕ, zero, suc, ◌≤◌, ◌≡◌, refl, sym, ap, ◌∙◌, true, false, some, List, [], ◌∷◌, ◌++◌, arith, inl,
  inr, Bool-cases, ◌==◌, nat_eq,
}
use mathlib.Core.List.{append-nil, append_assoc}
use netbula.Queue.{IsFifo}
use netbula.Manager.Core.{Parts, Manager, add_task_event}
use netbula.Manager.Core.Loops.{
  Phase, measuring, checking, sending, returned, Turn, add, go, loop_step, send_tasks_forever,
  added, steps,
}

abbrev pub Cancelled : List Turn → Type 0
Cancelled [] = Unit
Cancelled (add te ∷ turns) = Cancelled turns
Cancelled (go cancelled ∷ turns) = (cancelled ≡ true) × Cancelled turns

-- The steps to the `return`.
abbrev left : Phase → ℕ
left measuring = 2
left checking = 1
left (sending zero) = 3
left (sending (suc n)) = 1
left returned = 0

module _ (P : Parts) (fifo : IsFifo P.queue) where
  abbrev Returns : List Turn → Phase → Manager P → Type 0
  Returns turns phase m =
      (m' : Manager P) × (send_tasks_forever P turns phase m ≡ some (returned, m'))
      × (m'.state ≡ m.state)
      × (P.queue.contents m'.pending ≡ P.queue.contents m.pending ++ added turns)

  returns :
      (turns : List Turn) (phase : Phase) (m : Manager P)
      → Cancelled turns
      → left phase ≤ steps turns
      → Returns turns phase m
  unfolding send_tasks_forever loop_step
  returns [] returned m c n = (m, refl, refl, sym (append-nil (P.queue.contents m.pending)))
  returns [] measuring m c n = absurd (omega (arith, n))
  returns [] checking m c n = absurd (omega (arith, n))
  returns [] (sending zero) m c n = absurd (omega (arith, n))
  returns [] (sending (suc k)) m c n = absurd (omega (arith, n))
  returns (add te ∷ turns) phase m c n =
      let grown : Manager P = record m { pending = P.queue.enqueue te m.pending } in
      let (m', ran, state, queue) = returns turns phase grown c n in
      (
        m',
        unfold add_task_event in ran,
        state,
        queue
            ∙ ap (λ es. es ++ added turns) (fifo.contents-enqueue te m.pending)
            ∙ append_assoc (P.queue.contents m.pending) (te ∷ []) (added turns),
      )
  returns (go false ∷ turns) phase m c n = absurd (ground (arith, c.0))
  returns (go true ∷ turns) measuring m c n =
      let l = fifo.len-length m.pending in
      elim (Bool-cases (P.queue.len m.pending == 0)) [
        | inl z ↦
            let (m', ran, state, queue) = returns turns checking m c.1 (omega (arith, n)) in
            (m', ground (arith, ran), state, queue)
        | inr z ↦
            let (m', ran, state, queue) =
              returns turns (sending (P.queue.len m.pending)) m c.1 (ground (arith, n)) in
            (m', ground (arith, ran), state, queue)
      ]
  returns (go true ∷ turns) checking m c n = returns turns returned m c.1 (omega arith)
  returns (go true ∷ turns) (sending zero) m c n = returns turns measuring m c.1 (omega (arith, n))
  returns (go true ∷ turns) (sending (suc k)) m c n = returns turns returned m c.1 (omega arith)
  returns (go true ∷ turns) returned m c n = returns turns returned m c.1 (omega arith)

  -- Wherever the loop of `SendTasksForever` stands when the context is cancelled, it has returned
  -- within three steps and sends nothing more: the manager's state stays as it is, and the events
  -- that wait, with those that the API still adds, stay in the queue.
  pub send_tasks_forever-returns :
      (turns : List Turn) (phase : Phase) (m : Manager P)
      → Cancelled turns
      → 3 ≤ steps turns
      → (m' : Manager P) × (send_tasks_forever P turns phase m ≡ some (returned, m'))
        × (m'.state ≡ m.state)
        × (P.queue.contents m'.pending ≡ P.queue.contents m.pending ++ added turns)
  send_tasks_forever-returns turns phase m c n = returns turns phase m c (ground (arith, n))
