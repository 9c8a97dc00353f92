-- ===== src/Queue.antt =====
-- github.com/golang-collections/collections/queue, as the program uses it: a FIFO queue.
use netbula.Base.{ℕ, ◌≡◌, Option, none, some, List, [], ◌∷◌, ◌++◌, length}

pub record Queue (A : Type 0) : Type 1 where
  pub State : Type 0
  pub new : State
  pub enqueue : A → State → State
  pub dequeue : State → Option A × State
  pub len : State → ℕ
  -- The items, the next one first.
  pub contents : State → List A

abbrev pub head? {ℓ} : {A : Type ℓ} → List A → Option A
head? [] = none
head? (a ∷ rest) = some a

abbrev pub tail {ℓ} : {A : Type ℓ} → List A → List A
tail [] = []
tail (a ∷ rest) = rest

pub record IsFifo {A : Type 0} (Q : Queue A) : Type 0 where
  pub contents-new : Q.contents Q.new ≡ []
  pub contents-enqueue : (a : A) (q : Q.State) → Q.contents (Q.enqueue a q) ≡ Q.contents q ++ a ∷ []
  pub dequeue-head? : (q : Q.State) → (Q.dequeue q).0 ≡ head? (Q.contents q)
  pub dequeue-tail : (q : Q.State) → Q.contents (Q.dequeue q).1 ≡ tail (Q.contents q)
  pub len-length : (q : Q.State) → Q.len q ≡ length (Q.contents q)
