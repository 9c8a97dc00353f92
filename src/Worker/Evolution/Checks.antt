-- ===== src/Worker/Evolution/Checks.antt =====
-- internal/app/worker/worker.go: how the stored tasks change when `updateTasks` checks them.
use netbula.Base.{
  String, Bool, ◌≡◌, ◌≢◌, refl, sym, subst, inl, inr, true, false, none, some, [], ◌∷◌, arith, ◌==◌,
  string_eq, ==-refl, ==-eq, if◌then◌else◌, Bool-cases, Option-cases, contains, Distinct,
}
use netbula.Base.Result.{Result-cases}
use netbula.Base.Dict.{Dict, lookup, keys, values}
use netbula.Store.{IsLawful, IsHanding}
use netbula.Task.{State, pending, running, failed, Task, state_eq, valid_state_transition}
use netbula.Task.Lifecycle.{History, here, valid-History}
use netbula.Docker.{Container, inspect}
use netbula.Worker.{Parts, Worker, key, put_unchecked, is_up, update_one, update_all, update_tasks}
use netbula.Worker.Evolution.{
  Sound, Grown, Grown-refl, Grown-trans, Written-Grown, put_unchecked-Grown,
}

failing : (s : State) → s ≡ running → History s failed
unfolding valid_state_transition
failing s h = valid-History s failed (ground arith)

judged : (s : State) (up : Bool) → s ≡ running → History s (if up then s else failed)
judged s true h = here
judged s false h = failing s h

judged_begun : (s : State) (up : Bool) → s ≡ running → (if up then s else failed) ≢ pending
judged_begun s up h = ground arith

module _ (P : Parts) {TaskOk : P.tasks.State → Type 0} (tasks : IsLawful P.tasks TaskOk)
    (handing : IsHanding P.tasks TaskOk) where
  -- The store is sound still, and differs only at this key.
  abbrev Touched : String → P.tasks.State → P.tasks.State → Type 0
  Touched k db db' =
      Grown P tasks db db'
      × ((j : String) → (k == j) ≡ false → P.tasks.get j db' ≡ P.tasks.get j db)

  fail-Touched :
      (t : Task) (db : P.tasks.State)
      → Sound P tasks db
      → P.tasks.get (key P t) db ≡ (some t, none)
      → t.state ≡ running
      → Touched (key P t) db (put_unchecked P (record t { state = failed }) db)
  fail-Touched t db sound got r =
      let t' = record t { state = failed } in
      (
        put_unchecked-Grown P tasks t' db sound (ground arith)
            (λ x g. failing x.state (ground arith)),
        λ j n. elim (Result-cases (P.tasks.put (key P t) t' db)) [
          | inl (e, p) ↦ ground arith
          | inr (next, p) ↦ ground (arith, tasks.get-put (key P t) j t' db next p sound.valid)
        ],
      )

  stored_state :
      {k : String} (t x : Task) (db : P.tasks.State)
      → P.tasks.get k db ≡ (some t, none)
      → P.tasks.get k db ≡ (some x, none)
      → t.state ≡ x.state
  stored_state t x db g h = ground arith

  judge-Touched :
      (t : Task) (c : Container) (db : P.tasks.State)
      → Sound P tasks db
      → P.tasks.get (key P t) db ≡ (some t, none)
      → t.state ≡ running
      → let t' = record t {
        state = if is_up c.status then t.state else failed;
        port_bindings = c.ports;
      } in
        Touched (key P t) db (P.tasks.write_through (key P t) t' db)
  judge-Touched t c db sound got r =
      let t' = record t {
        state = if is_up c.status then t.state else failed;
        port_bindings = c.ports;
      } in
      elim (handing.write (key P t) t' t db sound.valid got) [
        | inl e ↦ subst (Touched (key P t) db) (sym e) (Grown-refl P tasks db sound, λ j n. refl)
        | inr (valid, get) ↦ (
          Written-Grown P tasks t' db (P.tasks.write_through (key P t) t' db) sound
              (record { valid = valid; get = get }) (judged_begun t.state (is_up c.status) r)
              (λ x g.
                subst (λ s. History s t'.state) (stored_state t x db got g)
                  (judged t.state (is_up c.status) r)),
          λ j n. ground (arith, get j),
        )
      ]

  update_one-Touched :
      (daemon : P.docker.Daemon) (t : Task) (db db' : P.tasks.State)
      → Sound P tasks db
      → P.tasks.get (key P t) db ≡ (some t, none)
      → update_one P daemon db t ≡ some db'
      → Touched (key P t) db db'
  unfolding update_one
  update_one-Touched daemon t db db' sound got h = elim (Bool-cases (state_eq t.state running)) [
    | inr n ↦ subst (Touched (key P t) db) (ground arith) (Grown-refl P tasks db sound, λ j n. refl)
    | inl r ↦ elim (Option-cases (inspect P.docker t.container_id daemon).container) [
      | inl p ↦
          subst (Touched (key P t) db) (ground arith) (fail-Touched t db sound got (ground arith))
      | inr (c, p) ↦
          subst (Touched (key P t) db) (ground arith)
            (judge-Touched t c db sound got (ground arith))
    ]
  ]

  -- Each of these entries can be read.
  abbrev Stored : P.tasks.State → Dict String Task → Type 0
  Stored db [] = Unit
  Stored db ((k, t) ∷ es) = (P.tasks.get k db ≡ (some t, none)) × Stored db es

  Touched-Stored :
      (k : String) (db db' : P.tasks.State) (es : Dict String Task)
      → ((j : String) → (k == j) ≡ false → P.tasks.get j db' ≡ P.tasks.get j db)
      → contains (keys es) k ≡ false
      → Stored db es
      → Stored db' es
  unfolding keys contains
  Touched-Stored k db db' [] same new stored = tt
  Touched-Stored k db db' ((j, t) ∷ es) same new (got, stored) = (
    ground (arith, same j, ==-eq k j, ==-eq j k, ==-refl k),
    Touched-Stored k db db' es same (ground arith) stored,
  )

  update_all-Grown :
      (daemon : P.docker.Daemon) (es : Dict String Task) (db db' : P.tasks.State)
      → Sound P tasks db
      → Stored db es
      → Distinct (keys es)
      → update_all P daemon db (values es) ≡ some db'
      → Grown P tasks db db'
  unfolding update_all values keys
  update_all-Grown daemon [] db db' sound stored distinct h =
      subst (Grown P tasks db) (ground arith) (Grown-refl P tasks db sound)
  update_all-Grown daemon ((k, t) ∷ es) db db' sound (got, stored) distinct h =
      elim (Option-cases (update_one P daemon db t)) [
        | inl p ↦ absurd (ground arith)
        | inr (next, p) ↦
            let same = sound.keyed k t got in
            let (grown, frame) =
              update_one-Touched daemon t db next sound
                (subst (λ j. P.tasks.get j db ≡ (some t, none)) same got) p in
            Grown-trans P tasks db next db' grown (
              update_all-Grown daemon es next db' grown.0
                (Touched-Stored (key P t) db next es frame (ground arith) stored) distinct.1
                (ground arith))
      ]

  lookup-Stored :
      (db : P.tasks.State) (es : Dict String Task)
      → Distinct (keys es)
      → ((k : String) → contains (keys es) k ≡ true → P.tasks.get k db ≡ (lookup k es, none))
      → Stored db es
  unfolding keys contains lookup
  lookup-Stored db [] distinct read = tt
  lookup-Stored db ((k, t) ∷ es) distinct read = (
    ground (arith, read k, ==-refl k),
    lookup-Stored db es distinct.1 (λ j h. ground (arith, read j, ==-eq k j)),
  )

  pub update_tasks-Grown :
      (w w' : Worker P)
      → Sound P tasks w.task_db
      → update_tasks P w ≡ some w'
      → Grown P tasks w.task_db w'.task_db
  unfolding update_tasks
  update_tasks-Grown w w' sound h = elim (Result-cases (P.tasks.list w.task_db)) [
    | inl (e, l) ↦
        subst (Grown P tasks w.task_db) (ground arith) (Grown-refl P tasks w.task_db sound)
    | inr (ts, l) ↦
        let (es, e) = tasks.entries-list w.task_db ts l sound.valid in
        let distinct = tasks.entries-Distinct w.task_db es e sound.valid in
        let (listed, counted) = tasks.list-entries w.task_db es e sound.valid in
        elim (Option-cases (update_all P w.daemon w.task_db ts)) [
          | inl p ↦ absurd (ground arith)
          | inr (db, p) ↦ subst (Grown P tasks w.task_db) (ground arith) (
              update_all-Grown w.daemon es w.task_db db sound
                (lookup-Stored w.task_db es distinct
                  (λ k c. tasks.get-entries k w.task_db es e sound.valid))
                distinct (ground arith))
        ]
  ]
