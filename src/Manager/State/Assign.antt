-- ===== src/Manager/State/Assign.antt =====
-- internal/app/manager/state.go: `AssignTaskToWorker` and the counts.
use netbula.Base.{
  ℕ, ◌+◌, ◌≡◌, subst, ◌⊎◌, inl, inr, true, false, ◌&&◌, ◌||◌, none, some, List, [], ◌∷◌, ◌++◌,
  arith, contains, contains-append, append-Distinct, ◌==◌, string_eq, nat_eq, ==-ne, if◌then◌else◌,
  Bool-cases,
}
use netbula.Base.Int.{pos, increment}
use netbula.Base.Dict.{insert, get_or-insert}
use netbula.Base.Result.{ok, Result-cases}
use netbula.Store.{IsLawful}
use netbula.Task.{scheduled, Task}
use netbula.Uuids.{Uuids, IsUuids, to_string-injective}
use netbula.Manager.State.{
  Stores, MappingStorage, tasks_of, count_of, link_task, assign_task_to_worker, get_task,
  get_assigned_worker,
}
use netbula.Manager.State.Invariant.{
  Inv, active, is_counted, get-put_self, get-put_ne, active-put, active-append, active_one, bit,
}

module _ (U : Uuids) (D : Stores) (law : IsUuids U) {TaskOk : D.tasks.State → Type 0}
    {LinkOk : D.task_workers.State → Type 0} (tasks : IsLawful D.tasks TaskOk)
    (links : IsLawful D.task_workers LinkOk) (st : MappingStorage D)
    (inv : Inv U D TaskOk LinkOk st) (t : Task) (w : ℕ) (db : D.tasks.State)
    (wdb : D.task_workers.State)
    (task_put : D.tasks.put (U.to_string t.id) (record t { state = scheduled }) st.task_db ≡ ok db)
    (link_put : D.task_workers.put (U.to_string t.id) w st.task_worker_db ≡ ok wdb) where
  link_self : D.task_workers.get (U.to_string t.id) wdb ≡ (some w, none)
  link_self = ground (
    arith,
    links.get-put (U.to_string t.id) (U.to_string t.id) w st.task_worker_db wdb link_put
        inv.link_ok,
  )

  link_ne :
      (j : ℕ)
      → (t.id == j) ≡ false
      → D.task_workers.get (U.to_string j) wdb
        ≡ D.task_workers.get (U.to_string j) st.task_worker_db
  link_ne j h = ground (
    arith,
    to_string-injective U law t.id j,
    links.get-put (U.to_string t.id) (U.to_string j) w st.task_worker_db wdb link_put inv.link_ok,
  )

  task_self : D.tasks.get (U.to_string t.id) db ≡ (some (record t { state = scheduled }), none)
  task_self = get-put_self U D law tasks t.id _ st.task_db db task_put inv.task_ok

  task_ne :
      (j : ℕ)
      → (t.id == j) ≡ false
      → D.tasks.get (U.to_string j) db ≡ D.tasks.get (U.to_string j) st.task_db
  task_ne = get-put_ne U D law tasks t.id _ st.task_db db task_put inv.task_ok

  moved :
      (v : ℕ)
      → let ids = tasks_of v st.worker_task_map in
        active U D db ids
          + bit (contains ids t.id && is_counted (D.tasks.get (U.to_string t.id) st.task_db))
        ≡ active U D st.task_db ids + bit (contains ids t.id && true)
  moved v =
      active-put U D law tasks t.id _ st.task_db db task_put inv.task_ok
        (tasks_of v st.worker_task_map) (inv.once v)

  -- The task is already the worker's, and counted.
  again :
      D.task_workers.get (U.to_string t.id) st.task_worker_db ≡ (some w, none)
      → is_counted (D.tasks.get (U.to_string t.id) st.task_db) ≡ true
      → Inv U D TaskOk LinkOk (record st { task_db = db; task_worker_db = wdb })
  again link on = record {
    task_ok = tasks.put-IsValid (U.to_string t.id) _ st.task_db db task_put inv.task_ok;
    link_ok = links.put-IsValid (U.to_string t.id) w st.task_worker_db wdb link_put inv.link_ok;
    counted = λ v. ground (arith, inv.counted v, moved v);
    once = inv.once;
    assigned = λ v j m. elim (nat_eq.dec t.id j) [
      | yes p ↦ ground (arith, p, link_self, inv.assigned v j m)
      | no n ↦ ground (arith, link_ne j (==-ne t.id j n), inv.assigned v j m)
    ];
    listed = λ v j g. elim (nat_eq.dec t.id j) [
      | yes p ↦ ground (arith, p, link_self, inv.listed v j)
      | no n ↦ ground (arith, link_ne j (==-ne t.id j n), inv.listed v j)
    ];
    started = λ v j y m g. elim (nat_eq.dec t.id j) [
      | yes p ↦ ground (arith, p, task_self)
      | no n ↦ ground (arith, task_ne j (==-ne t.id j n), inv.started v j y m)
    ];
  }

  abbrev ids_of : ℕ → List ℕ
  ids_of v = tasks_of v st.worker_task_map

  -- The task was nobody's.
  module _ (unlinked : D.task_workers.get (U.to_string t.id) st.task_worker_db ≡ (none, none)) where
    absent : (v : ℕ) → contains (ids_of v) t.id ≡ false
    absent v = elim (Bool-cases (contains (ids_of v) t.id)) [
      | inl m ↦ absurd (ground (arith, inv.assigned v t.id m))
      | inr m ↦ m
    ]

    tasks_new :
        (v : ℕ)
        → tasks_of v (insert w (ids_of w ++ t.id ∷ []) st.worker_task_map)
          ≡ (if w == v then ids_of w ++ t.id ∷ [] else ids_of v)
    tasks_new v = get_or-insert v w [] (ids_of w ++ t.id ∷ []) st.worker_task_map

    contains_new :
        (v j : ℕ)
        → contains (tasks_of v (insert w (ids_of w ++ t.id ∷ []) st.worker_task_map)) j
          ≡ (contains (ids_of v) j || ((w == v) && (t.id == j)))
    unfolding contains
    contains_new v j = ground (arith, tasks_new v, contains-append (ids_of w) (t.id ∷ []) j)

    fresh_link : Inv U D TaskOk LinkOk (record st {
      task_db = db;
      task_worker_db = wdb;
      worker_task_map = insert w (ids_of w ++ t.id ∷ []) st.worker_task_map;
      worker_active_task_count_map =
          insert w
            (increment (count_of w st.worker_active_task_count_map))
            st.worker_active_task_count_map;
    })
    fresh_link = record {
      task_ok = tasks.put-IsValid (U.to_string t.id) _ st.task_db db task_put inv.task_ok;
      link_ok = links.put-IsValid (U.to_string t.id) w st.task_worker_db wdb link_put inv.link_ok;
      counted = λ v. ground (
        arith,
        inv.counted v,
        moved v,
        absent v,
        tasks_new v,
        task_self,
        active-append U D db (ids_of w) (t.id ∷ []),
        active_one U D db t.id,
        get_or-insert v w (pos 0) (increment (count_of w st.worker_active_task_count_map))
            st.worker_active_task_count_map,
      );
      once =
          λ v. ground (arith, tasks_new v, inv.once v, append-Distinct (ids_of w) t.id, absent w);
      assigned = λ v j m. elim (nat_eq.dec t.id j) [
        | yes p ↦ ground (arith, p, link_self, inv.assigned v j, contains_new v j, absent v)
        | no n ↦ ground (arith, link_ne j (==-ne t.id j n), inv.assigned v j, contains_new v j)
      ];
      listed = λ v j g. elim (nat_eq.dec t.id j) [
        | yes p ↦ ground (arith, p, link_self, contains_new v j)
        | no n ↦ ground (arith, link_ne j (==-ne t.id j n), inv.listed v j, contains_new v j)
      ];
      started = λ v j y m g. elim (nat_eq.dec t.id j) [
        | yes p ↦ ground (arith, p, task_self)
        | no n ↦ ground (arith, task_ne j (==-ne t.id j n), inv.started v j y, contains_new v j)
      ];
    }

module _ (U : Uuids) (D : Stores) (st st' : MappingStorage D) (t t' : Task) (w : ℕ)
    (done : assign_task_to_worker U D st t w ≡ (st', ok t')) where
  -- A call that succeeds made both writes, then linked the task.
  pub assigned_parts :
      (db : D.tasks.State) × (wdb : D.task_workers.State) × (D.tasks.put
          (U.to_string t.id)
          (record t { state = scheduled })
          st.task_db
        ≡ ok db)
      × (D.task_workers.put (U.to_string t.id) w st.task_worker_db ≡ ok wdb)
      × (link_task U D (record st { task_db = db; task_worker_db = wdb }) t.id w ≡ st')
      × (t' ≡ record t { state = scheduled })
  unfolding assign_task_to_worker
  assigned_parts =
      elim (Result-cases
        (D.tasks.put (U.to_string t.id) (record t { state = scheduled }) st.task_db)) [
          | inl (e, p) ↦ absurd (ground arith)
          | inr (db, p) ↦
              elim (Result-cases (D.task_workers.put (U.to_string t.id) w st.task_worker_db)) [
                | inl (e, q) ↦ absurd (ground arith)
                | inr (wdb, q) ↦ (db, wdb, p, q, ground arith, ground arith)
              ]
        ]

module _ (U : Uuids) (D : Stores) (law : IsUuids U) {TaskOk : D.tasks.State → Type 0}
    {LinkOk : D.task_workers.State → Type 0} (tasks : IsLawful D.tasks TaskOk)
    (links : IsLawful D.task_workers LinkOk) (st st' : MappingStorage D)
    (inv : Inv U D TaskOk LinkOk st) (t t' : Task) (w : ℕ)
    (done : assign_task_to_worker U D st t w ≡ (st', ok t')) where
  -- Nobody has the task, or this worker has it and it is Scheduled or Running.
  abbrev pub Assignable : Type 0
  Assignable =
      (D.task_workers.get (U.to_string t.id) st.task_worker_db ≡ (none, none))
      ⊎ ((D.task_workers.get (U.to_string t.id) st.task_worker_db ≡ (some w, none))
          × (is_counted (D.tasks.get (U.to_string t.id) st.task_db) ≡ true))

  -- If the task is nobody's, or is this worker's and stored as Scheduled or Running, then a call of
  -- `AssignTaskToWorker` that succeeds keeps the counts exact; the task is then stored as Scheduled,
  -- under this worker.
  pub assign_task_to_worker-Inv :
      Assignable
      → Inv U D TaskOk LinkOk st'
        × (get_task U D st' t.id ≡ (some t', none))
        × (get_assigned_worker U D st' t.id ≡ (some w, none))
        × (t' ≡ record t { state = scheduled })
  unfolding link_task get_task get_assigned_worker
  assign_task_to_worker-Inv how =
      let (db, wdb, p, q, e, f) = assigned_parts U D st st' t t' w done in
      let got = task_self U D law tasks links st inv t w db wdb p q in
      let linked = link_self U D law tasks links st inv t w db wdb p q in
      let list = tasks_of w st.worker_task_map in
      (
        subst (Inv U D TaskOk LinkOk) e (elim how [
          | inl n ↦
              rw (absent U D law tasks links st inv t w db wdb p q n w)
                (fresh_link U D law tasks links st inv t w db wdb p q n)
          | inr (l, c) ↦
              rw (inv.listed w t.id l) (again U D law tasks links st inv t w db wdb p q l c)
        ]),
        ground arith,
        ground arith,
        f,
      )
