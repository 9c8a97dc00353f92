-- ===== src/Worker/Evolution.antt =====
-- internal/app/worker/worker.go: how the stored tasks change when one of them is written.
pub mod Steps
pub mod Checks
pub mod Lifetimes
use netbula.Base.{
  ℕ, String, ◌≡◌, ◌≢◌, refl, sym, ap, subst, ◌∙◌, ◌⊎◌, inl, inr, true, false, none, some, List, [],
  ◌∷◌, arith, ◌==◌, string_eq, ==-eq, ==-refl, if◌then◌else◌, Bool-cases, Option-cases,
}
use netbula.Base.Result.{Err, ok, Result-cases}
use netbula.Store.{IsLawful}
use netbula.Task.{
  State, pending, scheduled, running, completed, failed, Task, valid_state_transition,
}
use netbula.Task.Lifecycle.{History, here, History-trans, valid-History}
use netbula.Worker.{
  Parts, Worker, key, put_unchecked, start_task, stop_task, dispatch, execute, transition_task,
}

module _ (P : Parts) {TaskOk : P.tasks.State → Type 0} (tasks : IsLawful P.tasks TaskOk) where
  -- Each task is stored under its own id, and none is Pending.
  pub record Sound (db : P.tasks.State) : Type 0 where
    pub valid : TaskOk db
    pub keyed : (k : String) (t : Task) → P.tasks.get k db ≡ (some t, none) → k ≡ key P t
    pub begun : (k : String) (t : Task) → P.tasks.get k db ≡ (some t, none) → t.state ≢ pending

  -- Each stored task is still stored, in a state to which valid transitions, or none, lead.
  abbrev pub Evolves : P.tasks.State → P.tasks.State → Type 0
  Evolves db db' =
      (k : String) (t : Task)
      → P.tasks.get k db ≡ (some t, none)
      → (t' : Task) × (P.tasks.get k db' ≡ (some t', none)) × History t.state t'.state

  Evolves-refl : (db : P.tasks.State) → Evolves db db
  Evolves-refl db k t g = (t, g, here)

  pub Evolves-trans : (a b c : P.tasks.State) → Evolves a b → Evolves b c → Evolves a c
  Evolves-trans a b c f g k t h =
      let (t', h', past) = f k t h in
      let (t'', h'', later) = g k t' h' in (t'', h'', History-trans past later)

  -- What the stores hold afterwards, and how it came about.
  abbrev pub Grown : P.tasks.State → P.tasks.State → Type 0
  Grown db db' = Sound db' × Evolves db db'

  pub Grown-refl : (db : P.tasks.State) → Sound db → Grown db db
  Grown-refl db sound = (sound, Evolves-refl db)

  pub Grown-trans : (a b c : P.tasks.State) → Grown a b → Grown b c → Grown a c
  Grown-trans a b c f g = (g.0, Evolves-trans a b c f.1 g.1)

  -- This task is written under its id, and nothing else changes.
  pub record Written (t : Task) (db db' : P.tasks.State) : Type 0 where
    pub valid : TaskOk db'
    pub get :
        (j : String)
        → P.tasks.get j db' ≡ (if key P t == j then (some t, none) else P.tasks.get j db)

  pub Written-Grown :
      (t : Task) (db db' : P.tasks.State)
      → Sound db
      → Written t db db'
      → t.state ≢ pending
      → ((x : Task) → P.tasks.get (key P t) db ≡ (some x, none) → History x.state t.state)
      → Grown db db'
  Written-Grown t db db' sound written begun step = (
    record {
      valid = written.valid;
      keyed = λ k x g. elim (Bool-cases (key P t == k)) [
        | inl e ↦ ground (arith, written.get k, ==-eq (key P t) k e)
        | inr e ↦ sound.keyed k x (ground (arith, written.get k))
      ];
      begun = λ k x g. elim (Bool-cases (key P t == k)) [
        | inl e ↦ ground (arith, written.get k)
        | inr e ↦ sound.begun k x (ground (arith, written.get k))
      ];
    },
    λ k x g. elim (Bool-cases (key P t == k)) [
      | inl e ↦ (t, ground (arith, written.get k), step x (ground (arith, ==-eq (key P t) k e)))
      | inr e ↦ (x, ground (arith, written.get k), here)
    ],
  )

  pub put_unchecked-Grown :
      (t : Task) (db : P.tasks.State)
      → Sound db
      → t.state ≢ pending
      → ((x : Task) → P.tasks.get (key P t) db ≡ (some x, none) → History x.state t.state)
      → Grown db (put_unchecked P t db)
  put_unchecked-Grown t db sound begun step = elim (Result-cases (P.tasks.put (key P t) t db)) [
    | inl (e, p) ↦ subst (Grown db) (ground arith) (sound, Evolves-refl db)
    | inr (db', p) ↦ subst (Grown db) (ground arith) (
        Written-Grown t db db' sound
          (record {
            valid = tasks.put-IsValid (key P t) t db db' p sound.valid;
            get = λ j. tasks.get-put (key P t) j t db db' p sound.valid;
          })
          begun step)
  ]
