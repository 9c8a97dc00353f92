-- ===== src/Manager/State/Recover.antt =====
-- internal/app/manager/state.go: `NewState`, from the stores to the inferred maps.
use netbula.Base.{
  ℕ, suc, ◌+◌, String, ◌≡◌, refl, ◌≢◌, inl, inr, none, some, List, [], ◌∷◌, arith, contains,
  Distinct, ◌==◌, string_eq, nat_eq, if◌then◌else◌,
}
use netbula.Base.Int.{ℤ, pos, increment}
use netbula.Base.Dict.{Dict, insert, get_or, get_or-insert, keys, get_or-missing}
use netbula.Base.Result.{ok, Result-cases}
use netbula.Store.{IsLawful}
use netbula.Task.{pending, is_active, Task}
use netbula.Uuids.{Uuids, IsUuids}
use netbula.Manager.State.{Stores, StateStores, MappingStorage, tasks_of, count_of}
use netbula.Manager.State.Invariant.{Inv, active, is_counted}
use netbula.Manager.State.Rehydrate.{
  group_tasks, add_workers, fetch_task, count_tasks, count_workers, new_state,
}
use netbula.Manager.State.Grouping.{
  Canonical, linked-lookup, group-contains, no_groups, group-Grouping, add_workers-tasks,
}

module _ (U : Uuids) (D : Stores) where
  fetch_task-counted :
      (db : D.tasks.State) (id : ℕ) (t : Task)
      → fetch_task U D db id ≡ ok t
      → is_counted (D.tasks.get (U.to_string id) db) ≡ is_active t.state
  unfolding fetch_task
  fetch_task-counted db id t h = ground arith

  count_tasks-active :
      (db : D.tasks.State) (w v n : ℕ) (ids : List ℕ) (c c' : Dict ℕ ℤ)
      → count_tasks U D db w ids c ≡ ok c'
      → count_of v c ≡ pos n
      → count_of v c' ≡ pos (if w == v then n + active U D db ids else n)
  unfolding count_tasks active
  count_tasks-active db w v n [] c c' h e = ground arith
  count_tasks-active db w v n (id ∷ ids) c c' h e = elim (Result-cases (fetch_task U D db id)) [
    | inl (f, p) ↦ absurd (ground arith)
    | inr (t, p) ↦ ground (
      arith,
      fetch_task-counted db id t p,
      get_or-insert v w (pos 0) (increment (count_of w c)) c,
      count_tasks-active db w v n ids c c',
      count_tasks-active db w v n ids (insert w (increment (count_of w c)) c) c',
      count_tasks-active db w v (suc n) ids (insert w (increment (count_of w c)) c) c',
    )
  ]

  count_workers-active :
      (db : D.tasks.State) (v n : ℕ) (m : Dict ℕ (List ℕ)) (c c' : Dict ℕ ℤ)
      → count_workers U D db m c ≡ ok c'
      → Distinct (keys m)
      → count_of v c ≡ pos n
      → count_of v c' ≡ pos (n + active U D db (tasks_of v m))
  unfolding count_workers keys get_or active
  count_workers-active db v n [] c c' h d e = ground arith
  count_workers-active db v n ((w, ids) ∷ m) c c' h d e =
      elim (Result-cases (count_tasks U D db w ids c)) [
        | inl (f, p) ↦ absurd (ground arith)
        | inr (c₁, p) ↦ ground (
          arith,
          count_tasks-active db w v n ids c c₁ p e,
          count_workers-active db v n m c₁ c',
          count_workers-active db v (n + active U D db ids) m c₁ c',
          get_or-missing v [] m,
        )
      ]

-- The keys of the TaskWorker DB are written by `String`, and no assigned task is Pending.
pub record WellStored (U : Uuids) (D : Stores) (stores : StateStores D) : Type 0 where
  pub canonical :
      (es : Dict String ℕ) → D.task_workers.entries stores.task_worker_db ≡ ok es → Canonical U es
  pub started :
      (w id : ℕ) (t : Task)
      → D.task_workers.get (U.to_string id) stores.task_worker_db ≡ (some w, none)
      → D.tasks.get (U.to_string id) stores.task_db ≡ (some t, none)
      → t.state ≢ pending

module _ (U : Uuids) (D : Stores) (stores : StateStores D) (st : MappingStorage D)
    (done : new_state U D stores ≡ ok st) where
  -- The parts of a rehydration that succeeds.
  pub recovered :
      (es : Dict String ℕ) × (names : Dict String String) × (grouped : Dict ℕ (List ℕ))
      × (D.task_workers.entries stores.task_worker_db ≡ ok es)
      × (group_tasks U es [] ≡ ok grouped)
      × (add_workers U names grouped ≡ ok st.worker_task_map)
      × (count_workers U D stores.task_db st.worker_task_map []
          ≡ ok st.worker_active_task_count_map)
      × (st.task_db ≡ stores.task_db)
      × (st.task_worker_db ≡ stores.task_worker_db)
      × (D.worker_names.entries stores.worker_name_db ≡ ok names)
      × (st.workers ≡ keys st.worker_task_map)
      × (st.event_db ≡ stores.event_db)
      × (st.worker_name_db ≡ stores.worker_name_db)
  unfolding new_state
  recovered = elim (Result-cases (D.task_workers.entries stores.task_worker_db)) [
    | inl (e, p) ↦ absurd (ground arith)
    | inr (es, p) ↦ elim (Result-cases (group_tasks U es [])) [
      | inl (e, q) ↦ absurd (ground arith)
      | inr (grouped, q) ↦ elim (Result-cases (D.worker_names.entries stores.worker_name_db)) [
        | inl (e, r) ↦ absurd (ground arith)
        | inr (names, r) ↦ elim (Result-cases (add_workers U names grouped)) [
          | inl (e, s) ↦ absurd (ground arith)
          | inr (m, s) ↦ elim (Result-cases (count_workers U D stores.task_db m [])) [
            | inl (e, t) ↦ absurd (ground arith)
            | inr (c, t) ↦ (
              es,
              names,
              grouped,
              p,
              q,
              ground arith,
              ground arith,
              ground arith,
              ground arith,
              r,
              ground arith,
              ground arith,
              ground arith,
            )
          ]
        ]
      ]
    ]
  ]

  module _ (law : IsUuids U) {TaskOk : D.tasks.State → Type 0}
      {LinkOk : D.task_workers.State → Type 0} (links : IsLawful D.task_workers LinkOk)
      (task_ok : TaskOk stores.task_db) (link_ok : LinkOk stores.task_worker_db) where
    -- When the stored keys are canonical ids and no assigned task is stored as Pending, the state
    -- that `NewState` infers satisfies the whole invariant: the lists are the inverse of the stored
    -- assignment and the counts are exact.
    pub new_state-Inv : WellStored U D stores → Inv U D TaskOk LinkOk st
    unfolding get_or contains
    new_state-Inv s =
        let (es, names, grouped, p, q, r, c, e, f, _, _, _, _) = recovered in
        let distinct = links.entries-Distinct stores.task_worker_db es p link_ok in
        let canonical = s.canonical es p in
        let (once, rows) =
          group-Grouping U law es [] grouped canonical distinct q (no_groups U law es) in
        let (same, rows') = add_workers-tasks U law names grouped st.worker_task_map r rows in
        let at = λ (w id : ℕ). group-contains U law es [] grouped w id canonical q in
        let link = λ (w id : ℕ). linked-lookup U law w id es distinct in
        let get =
          λ (id : ℕ). links.get-entries (U.to_string id) stores.task_worker_db es p link_ok in
        record {
          task_ok = ground arith;
          link_ok = ground arith;
          counted = λ w. ground (
            arith,
            e,
            count_workers-active U D stores.task_db w 0 st.worker_task_map []
                st.worker_active_task_count_map c rows' refl,
          );
          once = λ w. rw (same w) (once w);
          assigned = λ w id h. ground (arith, same w, at w id, link w id, get id);
          listed = λ w id h. ground (arith, same w, at w id, link w id, get id);
          started =
              λ w id t h g. ground (arith, s.started w id t, same w, at w id, link w id, get id);
        }
