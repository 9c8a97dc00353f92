-- ===== src/Manager/Cluster/Sync.antt =====
-- internal/app/manager/cluster.go: `SyncTasks` and the counts of active tasks.
use netbula.Base.{
  ℕ, ◌≡◌, inl, inr, none, some, List, [], ◌∷◌, arith, subst, sym, string_eq, nat_eq, Option-cases,
}
use netbula.Base.Result.{Err, ok, Result-cases}
use netbula.Base.Dict.{lookup}
use netbula.Store.{IsLawful, Reliable}
use netbula.Task.{Task}
use netbula.Task.Lifecycle.{History}
use netbula.Uuids.{Uuids, IsUuids}
use netbula.Manager.State.{Stores, MappingStorage, merge_task, update_task, get_worker_ids}
use netbula.Manager.State.Invariant.{Inv}
use netbula.Manager.State.Update.{update_task-Inv}
use netbula.Manager.Cluster.{
  Net, HttpClientCluster, fetch_tasks, update_each, sync_one, sync_from, sync_tasks,
}

module _ (U : Uuids) (D : Stores) where
  -- Each report is of a state to which valid transitions, or none, lead from the stored one, at its
  -- turn.
  abbrev pub Expected : MappingStorage D → List Task → Type 0
  Expected st [] = Unit
  Expected st (t ∷ ts) =
      ((x : Task)
        → D.tasks.get (U.to_string t.id) st.task_db ≡ (some x, none)
        → History x.state t.state)
      × Expected (update_task U D st t).0 ts

  -- What each worker that answers reports is expected when it is its turn.
  abbrev pub AllExpected :
      (N : Net) → HttpClientCluster N → List ℕ → MappingStorage D → N.World → Type 0
  AllExpected N cluster [] st world = Unit
  AllExpected N cluster (w ∷ ws) st world =
      ((client : N.Client) (ts : List Task)
        → lookup w cluster.worker_client_map ≡ some client
        → (fetch_tasks N client world).1 ≡ ok ts
        → Expected st ts)
      × AllExpected N cluster ws (sync_one N U D cluster w st world).1
          (sync_one N U D cluster w st world).0

  module _ (task_io : Reliable D.tasks) where
    update_task_unchanged :
        (st : MappingStorage D) (t : Task) (e : Err)
        → (update_task U D st t).1 ≡ some e
        → (update_task U D st t).0 ≡ st
    unfolding update_task
    update_task_unchanged st t e h =
        elim (Option-cases (D.tasks.get (U.to_string t.id) st.task_db).0) [
          | inl g ↦ ground arith
          | inr (x, g) ↦
              let (db, p) = task_io.writes (U.to_string t.id) (merge_task x t) st.task_db in
              ground arith
        ]

  module _ (law : IsUuids U) {TaskOk : D.tasks.State → Type 0}
      {LinkOk : D.task_workers.State → Type 0} (tasks : IsLawful D.tasks TaskOk)
      (task_io : Reliable D.tasks) where
    module _ (N : Net) (cluster : HttpClientCluster N) where
      update_each-Inv :
          (st : MappingStorage D) (ts : List Task)
          → Inv U D TaskOk LinkOk st
          → Expected st ts
          → Inv U D TaskOk LinkOk (update_each N U D st ts)
      unfolding update_each
      update_each-Inv st [] inv h = inv
      update_each-Inv st (t ∷ ts) inv h = update_each-Inv (update_task U D st t).0 ts next h.1
        where
          next : Inv U D TaskOk LinkOk (update_task U D st t).0
          next = elim (Option-cases (update_task U D st t).1) [
            | inl e ↦ update_task-Inv U D law tasks st _ t inv h.0 (ground arith)
            | inr (f, e) ↦
                subst (Inv U D TaskOk LinkOk) (sym (update_task_unchanged task_io st t f e)) inv
          ]

      sync_one-Inv :
          (w : ℕ) (st : MappingStorage D) (world : N.World)
          → Inv U D TaskOk LinkOk st
          → ((client : N.Client) (ts : List Task)
              → lookup w cluster.worker_client_map ≡ some client
              → (fetch_tasks N client world).1 ≡ ok ts
              → Expected st ts)
          → Inv U D TaskOk LinkOk (sync_one N U D cluster w st world).1
      unfolding sync_one
      sync_one-Inv w st world inv h = elim (Option-cases (lookup w cluster.worker_client_map)) [
        | inl e ↦ subst (Inv U D TaskOk LinkOk) (ground arith) inv
        | inr (client, e) ↦ elim (Result-cases (fetch_tasks N client world).1) [
          | inl (f, p) ↦ subst (Inv U D TaskOk LinkOk) (ground arith) inv
          | inr (ts, p) ↦
              subst (Inv U D TaskOk LinkOk) (ground arith)
                (update_each-Inv st ts inv (h client ts e p))
        ]
      ]

      sync_from-Inv :
          (ws : List ℕ) (st : MappingStorage D) (world : N.World)
          → Inv U D TaskOk LinkOk st
          → AllExpected N cluster ws st world
          → Inv U D TaskOk LinkOk (sync_from N U D cluster ws st world).1
      unfolding sync_from
      sync_from-Inv [] st world inv h = inv
      sync_from-Inv (w ∷ ws) st world inv h =
          sync_from-Inv ws _ _ (sync_one-Inv w st world inv h.0) h.1

      -- If the task store does not fail and each task that a worker reports has, at its turn, the
      -- state that the manager stores for it or one to which valid transitions lead from there,
      -- then `SyncTasks` keeps the counts exact, in whatever order the answers arrive and whichever
      -- workers do not answer.
      pub sync_tasks-Inv :
          (st : MappingStorage D) (world : N.World)
          → Inv U D TaskOk LinkOk st
          → AllExpected N cluster (N.arrival world (get_worker_ids U D st)) st world
          → Inv U D TaskOk LinkOk (sync_tasks N U D cluster st world).1
      unfolding sync_tasks
      sync_tasks-Inv st world inv h =
          sync_from-Inv (N.arrival world (get_worker_ids U D st)) st world inv h
