-- ===== src/Manager/State/Remembered.antt =====
-- internal/app/manager/state.go: the list of workers that `rehydrate` builds.
use netbula.Base.{
  ℕ, String, ◌≡◌, refl, ◌⊎◌, inl, inr, true, ◌||◌, none, some, List, [], ◌∷◌, ◌++◌, arith, contains,
  ◌==◌, string_eq, nat_eq, Bool-cases,
}
use netbula.Base.Dict.{Dict, insert, lookup, keys, keys-insert}
use netbula.Base.Result.{ok, Result-cases}
use netbula.Store.{IsLawful}
use netbula.Uuids.{Uuids, IsUuids, to_string-injective}
use netbula.Manager.State.{Stores, StateStores, MappingStorage, tasks_of}
use netbula.Manager.State.Rehydrate.{group_tasks, add_workers, new_state}
use netbula.Manager.State.Grouping.{
  Canonical, linked, linked-lookup, group-Grouping, no_groups, add_workers-tasks,
}
use netbula.Manager.State.Roster.{Roster, is_stored}
use netbula.Manager.State.Recover.{recovered}

keys-lookup :
    {V : Type 0} (k : String) (es : Dict String V)
    → contains (keys es) k ≡ is_stored (lookup k es, none)
unfolding keys lookup contains
keys-lookup k [] = refl
keys-lookup k ((j, v) ∷ es) = ground (arith, keys-lookup k es)

module _ (U : Uuids) (law : IsUuids U) where
  -- A worker has a list since it had one, or since a task is linked to it.
  group_tasks-keys :
      (es : Dict String ℕ) (m m' : Dict ℕ (List ℕ)) (w : ℕ)
      → Canonical U es
      → group_tasks U es m ≡ ok m'
      → contains (keys m') w ≡ true
      → (contains (keys m) w ≡ true) ⊎ ((id : ℕ) × (linked U law w id es ≡ true))
  unfolding group_tasks linked
  group_tasks-keys [] m m' w c h p = inl (ground arith)
  group_tasks-keys ((k, v) ∷ es) m m' w c h p = elim (Result-cases (U.parse k)) [
    | inl (e, q) ↦ absurd (ground arith)
    | inr (j, q) ↦
        let list = tasks_of v m ++ j ∷ [] in
        elim (group_tasks-keys es (insert v list m) m' w c.1 (ground arith) p) [
          | inr (id, l) ↦ inr (id, ground arith)
          | inl l ↦ elim (Bool-cases (v == w)) [
            | inl same ↦ inr (j, ground (arith, c.0 j q))
            | inr differ ↦ inl (ground (arith, keys-insert v list m w))
          ]
        ]
  ]

  add_workers-keys :
      (es : Dict String String) (m m' : Dict ℕ (List ℕ)) (w : ℕ)
      → Canonical U es
      → add_workers U es m ≡ ok m'
      → contains (keys m') w ≡ (contains (keys m) w || contains (keys es) (U.to_string w))
  unfolding add_workers keys contains
  add_workers-keys [] m m' w c h = ground arith
  add_workers-keys ((k, n) ∷ es) m m' w c h = elim (Result-cases (U.parse k)) [
    | inl (e, p) ↦ absurd (ground arith)
    | inr (v, p) ↦ ground (
      arith,
      add_workers-keys es (insert v (tasks_of v m) m) m' w c.1,
      keys-insert v (tasks_of v m) m w,
      c.0 v p,
      to_string-injective U law v w,
    )
  ]

module _ (U : Uuids) (D : Stores) (law : IsUuids U) {LinkOk : D.task_workers.State → Type 0}
    {NameOk : D.worker_names.State → Type 0} (links : IsLawful D.task_workers LinkOk)
    (names : IsLawful D.worker_names NameOk) (stores : StateStores D) where
  -- The keys of both stores are ids as `String` writes them, and each worker with a task has a name.
  pub record WellNamed : Type 0 where
    pub link_ok : LinkOk stores.task_worker_db
    pub name_ok : NameOk stores.worker_name_db
    pub canonical :
        (es : Dict String ℕ) → D.task_workers.entries stores.task_worker_db ≡ ok es → Canonical U es
    pub names_canonical :
        (es : Dict String String)
        → D.worker_names.entries stores.worker_name_db ≡ ok es
        → Canonical U es
    pub named :
        (w id : ℕ)
        → D.task_workers.get (U.to_string id) stores.task_worker_db ≡ (some w, none)
        → is_stored (D.worker_names.get (U.to_string w) stores.worker_name_db) ≡ true

  -- The workers that `NewState` lists are those with a name in the store.
  pub new_state-Roster :
      (st : MappingStorage D) → new_state U D stores ≡ ok st → WellNamed → Roster U D NameOk st
  unfolding keys contains
  new_state-Roster st done s =
      let (es, stored, grouped, p, q, r, c, e, f, n, l, g, h) = recovered U D stores st done in
      let distinct = links.entries-Distinct stores.task_worker_db es p s.link_ok in
      let canonical = s.canonical es p in
      let (once, rows) =
        group-Grouping U law es [] grouped canonical distinct q (no_groups U law es) in
      let rows' = (add_workers-tasks U law stored grouped st.worker_task_map r rows).1 in
      record {
        name_ok = ground (arith, s.name_ok);
        distinct = ground (arith, rows');
        named = λ w.
            let get = names.get-entries (U.to_string w) stores.worker_name_db stored n s.name_ok in
            let listed =
              add_workers-keys U law stored grouped st.worker_task_map w
                (s.names_canonical stored n) r in
            let found = keys-lookup (U.to_string w) stored in
            elim (Bool-cases (contains (keys grouped) w)) [
              | inr a ↦ ground arith
              | inl a ↦ elim (group_tasks-keys U law es [] grouped w canonical q a) [
                | inl b ↦ absurd (ground arith)
                | inr (id, b) ↦
                    let link =
                      links.get-entries (U.to_string id) stores.task_worker_db es p s.link_ok in
                    let at = linked-lookup U law w id es distinct in ground (arith, s.named w id)
              ]
            ];
      }
