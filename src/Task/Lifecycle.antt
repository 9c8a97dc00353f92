-- ===== src/Task/Lifecycle.antt =====
-- internal/task/task.go: the state machine, against the diagram of docs/architecture.md.
use netbula.Base.{ℕ, ◌<◌, ◌≡◌, refl, subst, ◌∙◌, ◌↔◌, ◌⊎◌, inl, inr, true, arith}
use netbula.Task.{State, pending, scheduled, running, completed, failed, valid_state_transition}

-- The edges that the diagram of docs/architecture.md draws.
pub data Edge : State → State → Type 0 where
  assign : Edge pending scheduled
  start : Edge scheduled running
  start_error : Edge scheduled failed
  finish : Edge running completed
  exit_error : Edge running failed

-- The two states that may also be announced again.
pub data Repeats : State → Type 0 where
  scheduled_again : Repeats scheduled
  running_again : Repeats running

abbrev pub Allowed : State → State → Type 0
Allowed src dest = Edge src dest ⊎ ((src ≡ dest) × Repeats src)

ruleset diagram = (assign, start, start_error, finish, exit_error, scheduled_again, running_again)

valid-Allowed : (src dest : State) → valid_state_transition src dest ≡ true → Allowed src dest
unfolding valid_state_transition
valid-Allowed src dest h = grind (arith, diagram)

Edge-valid : {src dest : State} → Edge src dest → valid_state_transition src dest ≡ true
unfolding valid_state_transition
Edge-valid assign = refl
Edge-valid start = refl
Edge-valid start_error = refl
Edge-valid finish = refl
Edge-valid exit_error = refl

Repeats-valid : {s : State} → Repeats s → valid_state_transition s s ≡ true
unfolding valid_state_transition
Repeats-valid scheduled_again = refl
Repeats-valid running_again = refl

-- `ValidStateTransition` accepts exactly the edges of the documented diagram and, beyond them, the
-- repetition of `Scheduled` and of `Running`; so `Completed` and `Failed` have no way out.
pub valid_state_transition_iff :
    (src dest : State) → (valid_state_transition src dest ≡ true) ↔ Allowed src dest
valid_state_transition_iff src dest = (valid-Allowed src dest, back src dest)
  where
    back : (src dest : State) → Allowed src dest → valid_state_transition src dest ≡ true
    back src dest (inl e) = Edge-valid e
    back src dest (inr (e, r)) =
        subst (λ d. valid_state_transition src d ≡ true) e (Repeats-valid r)

-- The states that a task passes through when every change is a valid one.
pub data History (s : State) : State → Type 0 where
  here : History s s
  next : {t : State} (u : State) → History s t → valid_state_transition t u ≡ true → History s u

pub valid-History : (s t : State) → valid_state_transition s t ≡ true → History s t
valid-History s t valid = next t here valid

pub History-trans : {s t u : State} → History s t → History t u → History s u
History-trans past here = past
History-trans past (next u later valid) = next u (History-trans past later) valid

abbrev pub rank : State → ℕ
rank pending = 0
rank scheduled = 1
rank running = 2
rank completed = 3
rank failed = 3

rank-step : (t u : State) → valid_state_transition t u ≡ true → (rank t < rank u) ⊎ (t ≡ u)
unfolding valid_state_transition
rank-step t u h = ground arith

-- Along a history of valid transitions a task climbs or stays in the same state: it never goes
-- back, and a finished task keeps its verdict for good.
pub History-rank : {s t : State} → History s t → (rank s < rank t) ⊎ (s ≡ t)
History-rank here = inr refl
History-rank {s} (next {t} u past valid) = both (History-rank past) (rank-step t u valid)
  where
    both : (rank s < rank t) ⊎ (s ≡ t) → (rank t < rank u) ⊎ (t ≡ u) → (rank s < rank u) ⊎ (s ≡ u)
    both (inl a) (inl b) = inl (omega arith)
    both (inl a) (inr b) = inl (ground arith)
    both (inr a) (inl b) = inl (ground arith)
    both (inr a) (inr b) = inr (a ∙ b)
