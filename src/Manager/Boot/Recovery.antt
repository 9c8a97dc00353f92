-- ===== src/Manager/Boot/Recovery.antt =====
-- internal/app/manager/manager.go: a manager that is made by `New` from the stores of one that ran.
use netbula.Base.{
  ℕ, String, ◌≡◌, inl, inr, true, none, some, [], arith, contains, string_eq, nat_eq, Bool-cases,
}
use netbula.Base.Dict.{Dict}
use netbula.Base.Result.{ok, Result-cases}
use netbula.Uuids.{Uuids, IsUuids}
use netbula.Store.{IsLawful}
use netbula.Queue.{IsFifo}
use netbula.Manager.State.{Stores, StateStores, MappingStorage, tasks_of, count_of}
use netbula.Manager.State.Invariant.{Inv}
use netbula.Manager.State.Rehydrate.{new_state}
use netbula.Manager.State.Reordering.{active-same}
use netbula.Manager.State.Grouping.{Canonical}
use netbula.Manager.State.Roster.{Roster}
use netbula.Manager.State.Remembered.{WellNamed, new_state-Roster}
use netbula.Manager.State.Recover.{WellStored, recovered, new_state-Inv}
use netbula.Manager.Core.{Parts, Manager}
use netbula.Manager.Boot.Startup.{new}

-- What a state keeps on disk.
abbrev pub stores_of : (D : Stores) → MappingStorage D → StateStores D
stores_of D st = record {
  task_db = st.task_db;
  event_db = st.event_db;
  task_worker_db = st.task_worker_db;
  worker_name_db = st.worker_name_db;
}

module _ (U : Uuids) (D : Stores) {TaskOk : D.tasks.State → Type 0}
    {LinkOk : D.task_workers.State → Type 0} where
  -- Two states over the same stores have the same lists, up to their order, and the same counts.
  module _ (a b : MappingStorage D) (i : Inv U D TaskOk LinkOk a)
      (j : Inv U D TaskOk LinkOk b) where
    Inv-contains :
        (same_links : b.task_worker_db ≡ a.task_worker_db) (w id : ℕ)
        → contains (tasks_of w b.worker_task_map) id ≡ contains (tasks_of w a.worker_task_map) id
    Inv-contains same_links w id = ground (
      arith,
      same_links,
      i.assigned w id,
      i.listed w id,
      j.assigned w id,
      j.listed w id,
      Bool-cases (contains (tasks_of w b.worker_task_map) id),
      Bool-cases (contains (tasks_of w a.worker_task_map) id),
    )

    Inv-count_of :
        (same_tasks : b.task_db ≡ a.task_db) (same_links : b.task_worker_db ≡ a.task_worker_db)
        (w : ℕ)
        → count_of w b.worker_active_task_count_map ≡ count_of w a.worker_active_task_count_map
    Inv-count_of same_tasks same_links w =
        let total =
          active-same U D a.task_db (tasks_of w b.worker_task_map) (tasks_of w a.worker_task_map)
            (j.once w) (i.once w) (Inv-contains same_links w) in
        ground (arith, same_tasks, i.counted w, j.counted w, total)

module _ (P : Parts) where
  new-state :
      (scheduler : P.scheduler.State) (stores : StateStores P.stores) (world : P.net.World)
      (n : Manager P)
      → new P scheduler stores world ≡ ok n
      → (new_state P.uuids P.stores stores ≡ ok n.state)
        × (n.pending ≡ P.queue.new)
        × (n.worker_cluster.worker_client_map ≡ [])
  unfolding new
  new-state scheduler stores world n h = elim (Result-cases (new_state P.uuids P.stores stores)) [
    | inl (e, p) ↦ absurd (ground arith)
    | inr (st, p) ↦ (ground arith, ground arith, ground arith)
  ]

module _ (P : Parts) (law : IsUuids P.uuids) {TaskOk : P.stores.tasks.State → Type 0}
    {LinkOk : P.stores.task_workers.State → Type 0} (links : IsLawful P.stores.task_workers LinkOk)
    (fifo : IsFifo P.queue) where
  pub new-restored :
      (scheduler : P.scheduler.State) (world : P.net.World) (m n : Manager P)
      → Inv P.uuids P.stores TaskOk LinkOk m.state
      → ((es : Dict String ℕ)
          → P.stores.task_workers.entries m.state.task_worker_db ≡ ok es
          → Canonical P.uuids es)
      → new P scheduler (stores_of P.stores m.state) world ≡ ok n
      → Inv P.uuids P.stores TaskOk LinkOk n.state
        × ((w id : ℕ)
            → contains (tasks_of w n.state.worker_task_map) id
              ≡ contains (tasks_of w m.state.worker_task_map) id)
        × ((w : ℕ)
            → count_of w n.state.worker_active_task_count_map
              ≡ count_of w m.state.worker_active_task_count_map)
        × (P.queue.contents n.pending ≡ [])
        × (n.worker_cluster.worker_client_map ≡ [])
  new-restored scheduler world m n inv canonical h =
      let stores = stores_of P.stores m.state in
      let (made, empty, alone) = new-state P scheduler stores world n h in
      let well : WellStored P.uuids P.stores stores = record {
        canonical = canonical;
        started = λ w id t l g. inv.started w id t (inv.listed w id l) g;
      } in
      let next =
        new_state-Inv P.uuids P.stores stores n.state made law links inv.task_ok inv.link_ok well in
      let (es, names, grouped, p, q, r, c, tasks, assigned, _, _, _, _) =
        recovered P.uuids P.stores stores n.state made in
      (
        next,
        Inv-contains P.uuids P.stores m.state n.state inv next assigned,
        Inv-count_of P.uuids P.stores m.state n.state inv next tasks assigned,
        ground (arith, fifo.contents-new),
        alone,
      )

  -- A manager that `New` makes from the stores of one whose counts were exact, and whose list of
  -- workers was that of the stored names, has the same stores, the same workers, and for each worker
  -- the same tasks and the same count; its counts are exact and its workers those with a stored
  -- name. Its queue of pending events and its connections are empty. The keys of the stored
  -- assignment and names are ids as `String` writes them, and each worker with an assigned task was
  -- in the list.
  pub new-restart :
      {NameOk : P.stores.worker_names.State → Type 0}
      (names : IsLawful P.stores.worker_names NameOk) (scheduler : P.scheduler.State)
      (world : P.net.World) (m n : Manager P)
      → Inv P.uuids P.stores TaskOk LinkOk m.state
      → Roster P.uuids P.stores NameOk m.state
      → ((es : Dict String ℕ)
          → P.stores.task_workers.entries m.state.task_worker_db ≡ ok es
          → Canonical P.uuids es)
      → ((es : Dict String String)
          → P.stores.worker_names.entries m.state.worker_name_db ≡ ok es
          → Canonical P.uuids es)
      → ((w id : ℕ)
          → P.stores.task_workers.get (P.uuids.to_string id) m.state.task_worker_db ≡ (some w, none)
          → contains m.state.workers w ≡ true)
      → new P scheduler (stores_of P.stores m.state) world ≡ ok n
      → Inv P.uuids P.stores TaskOk LinkOk n.state
        × Roster P.uuids P.stores NameOk n.state
        × (n.state.task_db ≡ m.state.task_db)
        × (n.state.event_db ≡ m.state.event_db)
        × (n.state.task_worker_db ≡ m.state.task_worker_db)
        × (n.state.worker_name_db ≡ m.state.worker_name_db)
        × ((w : ℕ) → contains n.state.workers w ≡ contains m.state.workers w)
        × ((w id : ℕ)
            → contains (tasks_of w n.state.worker_task_map) id
              ≡ contains (tasks_of w m.state.worker_task_map) id)
        × ((w : ℕ)
            → count_of w n.state.worker_active_task_count_map
              ≡ count_of w m.state.worker_active_task_count_map)
        × (P.queue.contents n.pending ≡ [])
        × (n.worker_cluster.worker_client_map ≡ [])
  new-restart names scheduler world m n inv roster canonical names_canonical listed h =
      let stores = stores_of P.stores m.state in
      let made = (new-state P scheduler stores world n h).0 in
      let (next, lists, counts, empty, alone) = new-restored scheduler world m n inv canonical h in
      let well : WellNamed P.uuids P.stores law links names stores = record {
        link_ok = inv.link_ok;
        name_ok = roster.name_ok;
        canonical = canonical;
        names_canonical = names_canonical;
        named = λ w id l. ground (arith, roster.named w, listed w id l);
      } in
      let next_roster =
        new_state-Roster P.uuids P.stores law links names stores n.state made well in
      let (es, stored, grouped, p, q, r, c, tasks, assigned, _, _, events, same_names) =
        recovered P.uuids P.stores stores n.state made in
      (
        next,
        next_roster,
        tasks,
        events,
        assigned,
        same_names,
        λ w. ground (arith, same_names, roster.named w, next_roster.named w),
        lists,
        counts,
        empty,
        alone,
      )
