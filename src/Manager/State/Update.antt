-- ===== src/Manager/State/Update.antt =====
-- internal/app/manager/state.go: `UpdateTask` and the counts.
use netbula.Base.{
  ℕ, ◌+◌, ◌≡◌, subst, ◌≢◌, ◌⊎◌, inl, inr, true, false, ◌&&◌, not, none, some, arith, contains,
  string_eq, nat_eq, ==-ne, Option-cases, Bool-cases,
}
use netbula.Base.Int.{pos, decrement}
use netbula.Base.Dict.{insert, get_or-insert}
use netbula.Base.Result.{ok, Result-cases}
use netbula.Store.{IsLawful}
use netbula.Task.{pending, is_active, Task, state_eq}
use netbula.Task.Lifecycle.{History, History-rank}
use netbula.Uuids.{Uuids, IsUuids}
use netbula.Manager.State.{
  Stores, MappingStorage, tasks_of, count_of, is_terminal, merge_task, update_task,
}
use netbula.Manager.State.Invariant.{Inv, active, get-put_self, get-put_ne, active-put, bit}

module _ (U : Uuids) (D : Stores) (law : IsUuids U) {TaskOk : D.tasks.State → Type 0}
    {LinkOk : D.task_workers.State → Type 0} (tasks : IsLawful D.tasks TaskOk)
    (st : MappingStorage D) (inv : Inv U D TaskOk LinkOk st) (id : ℕ) (x y : Task)
    (db : D.tasks.State) (stored : D.tasks.get (U.to_string id) st.task_db ≡ (some x, none))
    (written : D.tasks.put (U.to_string id) y st.task_db ≡ ok db)
    (begun : x.state ≢ pending → y.state ≢ pending) where
  put-started :
      (w j : ℕ) (t : Task)
      → contains (tasks_of w st.worker_task_map) j ≡ true
      → D.tasks.get (U.to_string j) db ≡ (some t, none)
      → t.state ≢ pending
  put-started w j t m g = elim (nat_eq.dec id j) [
    | yes p ↦ ground (
      arith,
      p,
      begun,
      inv.started w id x,
      get-put_self U D law tasks id y st.task_db db written inv.task_ok,
    )
    | no n ↦ ground (
      arith,
      inv.started w j t m,
      get-put_ne U D law tasks id y st.task_db db written inv.task_ok j (==-ne id j n),
    )
  ]

  moved :
      (w : ℕ)
      → let ids = tasks_of w st.worker_task_map in
        active U D db ids + bit (contains ids id && is_active x.state)
        ≡ active U D st.task_db ids + bit (contains ids id && is_active y.state)
  moved w = ground (
    arith,
    active-put U D law tasks id y st.task_db db written inv.task_ok (tasks_of w st.worker_task_map)
        (inv.once w),
  )

  -- A write that leaves the task counted, or uncounted, as it was.
  put-Inv_same :
      (x.state ≢ pending → is_active x.state ≡ is_active y.state)
      → Inv U D TaskOk LinkOk (record st { task_db = db })
  put-Inv_same same = record {
    task_ok = tasks.put-IsValid (U.to_string id) y st.task_db db written inv.task_ok;
    link_ok = inv.link_ok;
    counted = λ w. elim (Bool-cases (contains (tasks_of w st.worker_task_map) id)) [
      | inl m ↦ ground (arith, inv.counted w, moved w, same, inv.started w id x m stored)
      | inr m ↦ ground (arith, inv.counted w, moved w)
    ];
    once = inv.once;
    assigned = inv.assigned;
    listed = inv.listed;
    started = put-started;
  }

  -- A write that finishes a counted task, with its worker's count taken down.
  put-Inv_finished :
      (v : ℕ)
      → is_active x.state ≡ true
      → is_active y.state ≡ false
      → D.task_workers.get (U.to_string id) st.task_worker_db ≡ (some v, none)
      → let counts = st.worker_active_task_count_map in
        Inv U D TaskOk LinkOk (record st {
          task_db = db;
          worker_active_task_count_map = insert v (decrement (count_of v counts)) counts;
        })
  put-Inv_finished v was is link = record {
    task_ok = tasks.put-IsValid (U.to_string id) y st.task_db db written inv.task_ok;
    link_ok = inv.link_ok;
    counted = λ w. elim (Bool-cases (contains (tasks_of w st.worker_task_map) id)) [
      | inl m ↦ ground (
        arith,
        get_or-insert w v (pos 0) (decrement (count_of v st.worker_active_task_count_map))
            st.worker_active_task_count_map,
        inv.counted w,
        inv.counted v,
        moved w,
        inv.assigned w id m,
      )
      | inr m ↦ ground (
        arith,
        get_or-insert w v (pos 0) (decrement (count_of v st.worker_active_task_count_map))
            st.worker_active_task_count_map,
        inv.counted w,
        moved w,
        inv.listed w id,
      )
    ];
    once = inv.once;
    assigned = inv.assigned;
    listed = inv.listed;
    started = put-started;
  }

module _ (U : Uuids) (D : Stores) (st st' : MappingStorage D) (update : Task) where
  -- A call that succeeds found the task, wrote it, and took the count down if it finished.
  abbrev pub Updated : Task → D.tasks.State → Type 0
  Updated x db =
      let counts = st.worker_active_task_count_map in
      let finishes = not (state_eq x.state update.state) && is_terminal update.state in
      ((finishes ≡ false) × (record st { task_db = db } ≡ st'))
      ⊎ ((v : ℕ) × (finishes ≡ true)
          × (D.task_workers.get (U.to_string update.id) st.task_worker_db ≡ (some v, none))
          × (record st {
            task_db = db;
            worker_active_task_count_map = insert v (decrement (count_of v counts)) counts;
          }
              ≡ st'))

  pub update_task-Updated :
      update_task U D st update ≡ (st', none)
      → (x : Task) × (db : D.tasks.State) × (D.tasks.get (U.to_string update.id) st.task_db
          ≡ (some x, none))
        × (D.tasks.put (U.to_string update.id) (merge_task x update) st.task_db ≡ ok db)
        × Updated x db
  unfolding update_task
  update_task-Updated h = elim (Option-cases ((D.tasks.get (U.to_string update.id) st.task_db).0)) [
    | inl e ↦ absurd (ground arith)
    | inr (x, e) ↦
        elim (Result-cases (D.tasks.put (U.to_string update.id) (merge_task x update) st.task_db)) [
          | inl (f, p) ↦ absurd (ground arith)
          | inr (db, p) ↦ (
            x,
            db,
            ground arith,
            p,
            elim (Option-cases ((D.task_workers.get (U.to_string update.id) st.task_worker_db).0)) [
              | inl n ↦ inl (ground arith)
              | inr (v, l) ↦
                  elim (Bool-cases
                    (not (state_eq x.state update.state) && is_terminal update.state)) [
                      | inl q ↦ inr (v, q, ground arith, ground arith)
                      | inr q ↦ inl (q, ground arith)
                    ]
            ],
          )
        ]
  ]

module _ (U : Uuids) (D : Stores) (law : IsUuids U) {TaskOk : D.tasks.State → Type 0}
    {LinkOk : D.task_workers.State → Type 0} (tasks : IsLawful D.tasks TaskOk)
    (st st' : MappingStorage D) (update : Task) (inv : Inv U D TaskOk LinkOk st) where
  -- The change of state that an update asks for.
  abbrev pub Permitted : Type 0
  Permitted =
      (x : Task)
      → D.tasks.get (U.to_string update.id) st.task_db ≡ (some x, none)
      → History x.state update.state

  merged-active :
      (x : Task)
      → History x.state update.state
      → (not (state_eq x.state update.state) && is_terminal update.state) ≡ false
      → x.state ≢ pending
      → (is_active x.state ≡ is_active update.state) × (update.state ≢ pending)
  merged-active x p q n = ground (arith, History-rank p)

  merged-finished :
      (x : Task)
      → History x.state update.state
      → (not (state_eq x.state update.state) && is_terminal update.state) ≡ true
      → x.state ≢ pending
      → (is_active x.state ≡ true) × (is_active update.state ≡ false) × (update.state ≢ pending)
  merged-finished x p q n = ground (arith, History-rank p)

  -- If valid transitions, or none, lead from the stored state to the new one, then a call of
  -- `UpdateTask` that succeeds keeps each worker's count equal to the number of its tasks that are
  -- stored as Scheduled or Running.
  pub update_task-Inv :
      Permitted → update_task U D st update ≡ (st', none) → Inv U D TaskOk LinkOk st'
  update_task-Inv p h =
      let (x, db, got, put, how) = update_task-Updated U D st st' update h in
      elim how [
        | inl (q, e) ↦ subst (Inv U D TaskOk LinkOk) e (
            put-Inv_same U D law tasks st inv update.id x (merge_task x update) db got put
              (λ n. (merged-active x (p x got) q n).1) (λ n. (merged-active x (p x got) q n).0))
        | inr (v, q, l, e) ↦
            let begun = inv.started v update.id x (inv.listed v update.id l) got in
            let (was, is, n) = merged-finished x (p x got) q begun in
            subst (Inv U D TaskOk LinkOk) e (
              put-Inv_finished U D law tasks st inv update.id x (merge_task x update) db got put
                (λ _. n) v was is l)
      ]
