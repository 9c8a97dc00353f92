-- ===== src/Manager/Core/Draining.antt =====
-- internal/app/manager/manager.go: what `SendTasksForever` does with the queue.
use netbula.Base.{
  ℕ, zero, suc, ◌+◌, ◌-◌, ◌≤◌, ◌≡◌, refl, sym, ap, subst, ◌∙◌, Bool, true, false, some, List, [],
  ◌∷◌, ◌++◌, ◌⊎◌, arith, length, length-append, inl, inr, List-cases, Bool-cases, ◌==◌, nat_eq,
}
use mathlib.Core.List.{append-nil, append_assoc}
use netbula.Task.{TaskEvent}
use netbula.Queue.{IsFifo}
use netbula.Manager.Core.{Parts, Manager, add_task_event}
use netbula.Manager.Core.Loops.{
  Phase, measuring, checking, sending, returned, Turn, add, go, loop_step, send_tasks_forever,
  Calls, no_call, sent_work, added_event, added, steps,
}
use netbula.Manager.Core.Events.{Taken, send_work-Taken}
use netbula.Manager.Core.Totality.{Measured, Picks, send_work-total}

abbrev pub Uncancelled : List Turn → Type 0
Uncancelled [] = Unit
Uncancelled (add te ∷ turns) = Uncancelled turns
Uncancelled (go cancelled ∷ turns) = (cancelled ≡ false) × Uncancelled turns

-- The inner loop never runs more rounds than events are pending.
abbrev Fits : Phase → ℕ → Type 0
Fits (sending n) pending = n ≤ pending
Fits _ pending = Unit

-- Within this many steps the next `due` events are sent.
abbrev Enough : Phase → ℕ → ℕ → Type 0
Enough measuring due n = due + 1 ≤ n
Enough checking due n = due + 2 ≤ n
Enough (sending k) due n = (due ≤ k) × (due ≤ n) ⊎ (due + 2 ≤ n)
Enough returned due n = due ≡ 0

module _ (P : Parts) (measured : Measured P) (picks : Picks P) (fifo : IsFifo P.queue) where
  abbrev queued : Manager P → List TaskEvent
  queued m = P.queue.contents m.pending

  -- What a run leaves: the events that were queued or added, less those that it has sent.
  abbrev Drains : List Turn → Phase → Manager P → Type 0
  Drains turns phase m =
      (phase' : Phase) × (m' : Manager P) × (sent : List TaskEvent) × (send_tasks_forever P turns
          phase m
        ≡ some (phase', m'))
      × Calls P m (added turns) sent m'
      × (queued m ++ added turns ≡ sent ++ queued m')
      × ((due : ℕ)
          → due ≤ length (queued m)
          → Uncancelled turns
          → Enough phase due (steps turns)
          → due ≤ length sent)

  Enough-zero : (phase : Phase) (due : ℕ) → Enough phase due 0 → due ≡ 0
  Enough-zero measuring due e = omega arith
  Enough-zero checking due e = omega arith
  Enough-zero (sending k) due e = ground arith
  Enough-zero returned due e = e

  -- A step of the loop that sends nothing.
  pass :
      (turns : List Turn) (phase phase' : Phase) (cancelled : Bool) (m : Manager P)
      → loop_step P phase cancelled m ≡ some (phase', m)
      → ((due : ℕ)
          → due ≤ length (queued m)
          → cancelled ≡ false
          → Enough phase due (suc (steps turns))
          → (due ≡ 0) ⊎ Enough phase' due (steps turns))
      → Drains turns phase' m
      → Drains (go cancelled ∷ turns) phase m
  unfolding send_tasks_forever
  pass turns phase phase' cancelled m h enough (next, m', sent, ran, calls, left, served) = (
    next,
    m',
    sent,
    ground (arith, h, ran),
    calls,
    left,
    λ due b u n. elim (enough due b u.0 n) [
      | inl z ↦ omega (arith, z)
      | inr f ↦ served due b u.1 f
    ],
  )

  Fits-enqueue :
      (phase : Phase) (te : TaskEvent) (q : P.queue.State)
      → Fits phase (length (P.queue.contents q))
      → Fits phase (length (P.queue.contents (P.queue.enqueue te q)))
  Fits-enqueue measuring te q f = tt
  Fits-enqueue checking te q f = tt
  Fits-enqueue (sending n) te q f = omega (
    arith,
    f,
    ap length (fifo.contents-enqueue te q),
    length-append (P.queue.contents q) (te ∷ []),
  )
  Fits-enqueue returned te q f = tt

  drains :
      (turns : List Turn) (phase : Phase) (m : Manager P)
      → Fits phase (length (queued m))
      → Drains turns phase m
  unfolding send_tasks_forever loop_step
  drains [] phase m fits = (
    phase,
    m,
    [],
    refl,
    no_call,
    append-nil (queued m),
    λ due b u n. omega (arith, Enough-zero phase due n),
  )
  drains (add te ∷ turns) phase m fits =
      let m₁ : Manager P = record m { pending = P.queue.enqueue te m.pending } in
      let grown = fifo.contents-enqueue te m.pending in
      let longer = ap length grown ∙ length-append (queued m) (te ∷ []) in
      let (phase', m', sent, ran, calls, left, served) =
        drains turns phase m₁ (Fits-enqueue phase te m.pending fits) in
      (
        phase',
        m',
        sent,
        unfold add_task_event in ran,
        added_event te (unfold add_task_event in calls),
        sym (append_assoc (queued m) (te ∷ []) (added turns))
            ∙ ap (λ es. es ++ added turns) (sym grown)
            ∙ left,
        λ due b u n. served due (omega (arith, b, longer)) u n,
      )
  drains (go cancelled ∷ turns) measuring m fits =
      let l = fifo.len-length m.pending in
      elim (Bool-cases (P.queue.len m.pending == 0)) [
        | inl z ↦
            pass turns measuring checking cancelled m (ground arith)
              (λ due b u n. inl (ground (arith, l, b))) (drains turns checking m tt)
        | inr z ↦
            pass turns measuring (sending (P.queue.len m.pending)) cancelled m (ground arith)
              (λ due b u n. inr (inl (omega (arith, l, b), omega (arith, n))))
              (drains turns (sending (P.queue.len m.pending)) m (omega (arith, l)))
      ]
  drains (go true ∷ turns) checking m fits =
      pass turns checking returned true m refl (λ due b u n. absurd (ground arith))
        (drains turns returned m tt)
  drains (go false ∷ turns) checking m fits =
      pass turns checking measuring false m refl (λ due b u n. inr (omega arith))
        (drains turns measuring m tt)
  drains (go cancelled ∷ turns) (sending zero) m fits =
      pass turns (sending zero) measuring cancelled m refl (λ due b u n. ground arith)
        (drains turns measuring m tt)
  drains (go true ∷ turns) (sending (suc k)) m fits =
      pass turns (sending (suc k)) returned true m refl (λ due b u n. absurd (ground arith))
        (drains turns returned m tt)
  drains (go false ∷ turns) (sending (suc k)) m fits =
      let ((m₁, target, e), p) = send_work-total P measured picks fifo m in
      let taken = send_work-Taken P fifo m m₁ target e p in
      elim (List-cases (queued m)) [
        | inl q ↦ absurd (omega (arith, fits, ap length q))
        | inr (te, rest, q) ↦
            let (next, done, reported, same) = subst (λ es. Taken P es m (m₁, target, e)) q taken in
            let size = ap length q in
            let size₁ = ap length next in
            let (phase', m', sent, ran, calls, left, served) =
              drains turns (sending k) m₁ (omega (arith, fits, size, size₁)) in
            (
              phase',
              m',
              te ∷ sent,
              ground (arith, p, ran),
              sent_work te done rest e q (ground arith) same calls,
              ap (λ es. es ++ added turns) q
                  ∙ ap (λ es. te ∷ es ++ added turns) (sym next)
                  ∙ ap (λ es. te ∷ es) left,
              λ due b u n.
                  let fewer : due - 1 ≤ length (queued m₁) = omega (arith, b, size, size₁) in
                  let soon : Enough (sending k) (due - 1) (steps turns) = ground (arith, n) in
                  omega (arith, served (due - 1) fewer u.1 soon),
            )
      ]
  drains (go cancelled ∷ turns) returned m fits =
      pass turns returned returned cancelled m refl (λ due b u n. inl n)
        (drains turns returned m tt)

  -- The loop of `SendTasksForever` never panics, whatever the API adds in between and whenever the
  -- context is cancelled, if no worker's statistics are without a processor and the scheduler picks
  -- a node wherever there is a candidate. What it and the API do to the manager is a sequence of
  -- calls of `AddTaskEvent` and `SendWork`, each `SendWork` about the oldest queued event. The
  -- events that were queued and those that the API has added are, in this order, those about which
  -- the loop has called `SendWork`, and those that still wait. As long as the context is not
  -- cancelled, within one step more than events were queued `SendWork` is called about all of
  -- these. The calls do not overlap.
  pub send_tasks_forever-drains :
      (turns : List Turn) (m : Manager P)
      → (phase' : Phase) × (m' : Manager P) × (sent : List TaskEvent) × (send_tasks_forever P turns
            measuring m
          ≡ some (phase', m'))
        × Calls P m (added turns) sent m'
        × (P.queue.contents m.pending ++ added turns ≡ sent ++ P.queue.contents m'.pending)
        × (Uncancelled turns
            → suc (length (P.queue.contents m.pending)) ≤ steps turns
            → length (P.queue.contents m.pending) ≤ length sent)
  send_tasks_forever-drains turns m =
      let (phase', m', sent, ran, calls, left, served) = drains turns measuring m tt in
      (
        phase',
        m',
        sent,
        ran,
        calls,
        left,
        λ u n. served (length (queued m)) (omega arith) u (omega (arith, n)),
      )
