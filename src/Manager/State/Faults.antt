-- ===== src/Manager/State/Faults.antt =====
-- internal/app/manager/state.go: failed calls of `UpdateTask`, and calls on finished tasks.
use netbula.Base.{
  ℕ, ◌≡◌, sym, subst, ◌≢◌, ◌⊎◌, inl, inr, true, none, some, arith, string_eq, nat_eq, Option-cases,
}
use netbula.Base.Int.{pos, decrement}
use netbula.Base.Dict.{insert, get_or-insert}
use netbula.Base.Result.{Err, ok, err, Result-cases}
use netbula.Store.{IsLawful}
use netbula.Task.{scheduled, Task}
use netbula.Uuids.{Uuids, IsUuids}
use netbula.Manager.State.{
  Stores, MappingStorage, tasks_of, count_of, is_terminal, merge_task, update_task,
  assign_task_to_worker, link_task,
}
use netbula.Manager.State.Invariant.{Inv, active, active-put, get-put_self}
use netbula.Manager.State.Update.{update_task-Updated}
use netbula.Manager.State.Assign.{assigned_parts}

module _ (U : Uuids) (D : Stores) (st st' : MappingStorage D) (update : Task) where
  -- A call of `UpdateTask` that fails leaves the four stores, the list of workers and the lists of
  -- tasks as they were; the counts too, unless it was the last write that failed.
  pub update_task_error :
      (e : Err)
      → update_task U D st update ≡ (st', some e)
      → (st'.task_db ≡ st.task_db)
        × (st'.task_worker_db ≡ st.task_worker_db)
        × (st'.event_db ≡ st.event_db)
        × (st'.worker_name_db ≡ st.worker_name_db)
        × (st'.workers ≡ st.workers)
        × (st'.worker_task_map ≡ st.worker_task_map)
        × ((st'.worker_active_task_count_map ≡ st.worker_active_task_count_map)
            ⊎ ((x : Task) × (f : Err) × (D.tasks.get (U.to_string update.id) st.task_db
                  ≡ (some x, none))
                × (D.tasks.put (U.to_string update.id) (merge_task x update) st.task_db ≡ err f)))
  unfolding update_task
  update_task_error e h = elim (Option-cases ((D.tasks.get (U.to_string update.id) st.task_db).0)) [
    | inl n ↦ (
      ground arith,
      ground arith,
      ground arith,
      ground arith,
      ground arith,
      ground arith,
      inl (ground arith),
    )
    | inr (x, g) ↦
        elim (Result-cases (D.tasks.put (U.to_string update.id) (merge_task x update) st.task_db)) [
          | inr (db, p) ↦ (
            ground arith,
            ground arith,
            ground arith,
            ground arith,
            ground arith,
            ground arith,
            inl (ground arith),
          )
          | inl (f, p) ↦ elim (Option-cases ((D.tasks.get (U.to_string update.id) st.task_db).1)) [
            | inl q ↦ (
              ground arith,
              ground arith,
              ground arith,
              ground arith,
              ground arith,
              ground arith,
              inr (x, f, ground arith, p),
            )
            | inr (d, q) ↦ (
              ground arith,
              ground arith,
              ground arith,
              ground arith,
              ground arith,
              ground arith,
              inl (ground arith),
            )
          ]
        ]
  ]

module _ (U : Uuids) (D : Stores) (law : IsUuids U) {TaskOk : D.tasks.State → Type 0}
    {LinkOk : D.task_workers.State → Type 0} (tasks : IsLawful D.tasks TaskOk)
    (st st' : MappingStorage D) (inv : Inv U D TaskOk LinkOk st) where
  -- The worker's count is the number of its tasks that are stored as Scheduled or Running.
  abbrev pub Exact : MappingStorage D → ℕ → Type 0
  Exact s v =
      count_of v s.worker_active_task_count_map
      ≡ pos (active U D s.task_db (tasks_of v s.worker_task_map))

  abbrev pub Wrong : ℕ → Type 0
  Wrong v = ¬ Exact st' v

  finished_again :
      (x update : Task) (db : D.tasks.State) (v : ℕ)
      → is_terminal x.state ≡ true
      → is_terminal update.state ≡ true
      → D.tasks.get (U.to_string update.id) st.task_db ≡ (some x, none)
      → D.tasks.put (U.to_string update.id) (merge_task x update) st.task_db ≡ ok db
      → let counts = st.worker_active_task_count_map in
        count_of v (insert v (decrement (count_of v counts)) counts)
        ≢ pos (active U D db (tasks_of v st.worker_task_map))
  finished_again x update db v a b got put =
      let counts = st.worker_active_task_count_map in
      ground (
        arith,
        get_or-insert v v (pos 0) (decrement (count_of v counts)) counts,
        inv.counted v,
        active-put U D law tasks update.id (merge_task x update) st.task_db db put inv.task_ok
            (tasks_of v st.worker_task_map) (inv.once v),
      )

  uncounted :
      (x t : Task) (w : ℕ) (db : D.tasks.State)
      → D.tasks.get (U.to_string t.id) st.task_db ≡ (some x, none)
      → is_terminal x.state ≡ true
      → D.task_workers.get (U.to_string t.id) st.task_worker_db ≡ (some w, none)
      → D.tasks.put (U.to_string t.id) (record t { state = scheduled }) st.task_db ≡ ok db
      → count_of w st.worker_active_task_count_map
        ≢ pos (active U D db (tasks_of w st.worker_task_map))
  uncounted x t w db got a link put = ground (
    arith,
    inv.counted w,
    inv.listed w t.id link,
    active-put U D law tasks t.id (record t { state = scheduled }) st.task_db db put inv.task_ok
        (tasks_of w st.worker_task_map) (inv.once w),
  )

  -- Whenever `UpdateTask` succeeds in moving a task from one of Completed and Failed to the other,
  -- and the counts were exact, then the count of the worker that the task is assigned to is not the
  -- number of its active tasks afterwards.
  pub update_task_twice :
      (x update : Task)
      → D.tasks.get (U.to_string update.id) st.task_db ≡ (some x, none)
      → is_terminal x.state ≡ true
      → is_terminal update.state ≡ true
      → x.state ≢ update.state
      → update_task U D st update ≡ (st', none)
      → (v : ℕ) × (D.task_workers.get (U.to_string update.id) st.task_worker_db ≡ (some v, none))
        × Wrong v
  update_task_twice x update got a b differ h =
      let (y, db, got', put, how) = update_task-Updated U D st st' update h in
      elim how [
        | inl (q, e) ↦ absurd (differ (ground arith))
        | inr (v, q, l, e) ↦ (
          v,
          l,
          λ exact.
              finished_again x update db v a b got (ground arith)
                (subst (λ s. Exact s v) (sym e) exact),
        )
      ]

  -- Whenever `AssignTaskToWorker` succeeds on a task of that worker that is stored as Completed or
  -- Failed, and the counts were exact, then that worker's count is not the number of its active
  -- tasks afterwards: the task becomes Scheduled uncounted.
  pub assign_task_to_worker_finished :
      (links : IsLawful D.task_workers LinkOk) (x t t' : Task) (w : ℕ)
      → D.tasks.get (U.to_string t.id) st.task_db ≡ (some x, none)
      → is_terminal x.state ≡ true
      → D.task_workers.get (U.to_string t.id) st.task_worker_db ≡ (some w, none)
      → assign_task_to_worker U D st t w ≡ (st', ok t')
      → (D.tasks.get (U.to_string t.id) st'.task_db ≡ (some (record t { state = scheduled }), none))
        × Wrong w
  unfolding link_task
  assign_task_to_worker_finished links x t t' w got a link h =
      let (db, wdb, p, q, e, f) = assigned_parts U D st st' t t' w h in
      let list = tasks_of w st.worker_task_map in
      let e' = rw (inv.listed w t.id link) at e in
      (
        rw (sym e') (get-put_self U D law tasks t.id _ st.task_db db p inv.task_ok),
        λ exact. uncounted x t w db got a link p (subst (λ s. Exact s w) (sym e') exact),
      )
