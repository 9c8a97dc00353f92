-- ===== src/Manager/State/Invariant.antt =====
-- internal/app/manager/state.go: the invariant of `MappingStorage`, on the maps kept in memory and
-- the stores that they mirror.
use Prim.Native.Nat.{ℕ, suc, ◌+◌}
use netbula.Base.{
  ◌≡◌, refl, subst, ◌≢◌, Bool, true, false, ◌&&◌, Option, none, some, List, [], ◌∷◌, ◌++◌, arith,
  contains, Distinct, ◌==◌, string_eq, nat_eq, ==-ne, if◌then◌else◌,
}
use netbula.Base.Int.{pos}
use netbula.Base.Result.{Err, ok}
use netbula.Store.{IsLawful}
use netbula.Task.{pending, is_active, Task}
use netbula.Uuids.{Uuids, IsUuids, to_string-injective}
use netbula.Manager.State.{Stores, MappingStorage, tasks_of, count_of}

-- Is this stored task, if it is one, counted?
abbrev pub is_counted : Option Task × Option Err → Bool
is_counted (some t, none) = is_active t.state
is_counted _ = false

abbrev pub bit : Bool → ℕ
bit true = 1
bit false = 0

module _ (U : Uuids) (D : Stores) where
  -- How many of the listed tasks the store records as Scheduled or Running.
  unfoldable pub active : D.tasks.State → List ℕ → ℕ
  active db [] = 0
  active db (id ∷ ids) =
      if is_counted (D.tasks.get (U.to_string id) db) then suc (active db ids) else active db ids

  pub record Inv (TaskOk : D.tasks.State → Type 0) (LinkOk : D.task_workers.State → Type 0)
      (st : MappingStorage D) : Type 0 where
    pub task_ok : TaskOk st.task_db
    pub link_ok : LinkOk st.task_worker_db
    pub counted :
        (w : ℕ)
        → count_of w st.worker_active_task_count_map
          ≡ pos (active st.task_db (tasks_of w st.worker_task_map))
    pub once : (w : ℕ) → Distinct (tasks_of w st.worker_task_map)
    -- A task stands in the list of the worker that it is assigned to, and in no other.
    pub assigned :
        (w id : ℕ)
        → contains (tasks_of w st.worker_task_map) id ≡ true
        → D.task_workers.get (U.to_string id) st.task_worker_db ≡ (some w, none)
    pub listed :
        (w id : ℕ)
        → D.task_workers.get (U.to_string id) st.task_worker_db ≡ (some w, none)
        → contains (tasks_of w st.worker_task_map) id ≡ true
    -- No assigned task is Pending.
    pub started :
        (w id : ℕ) (t : Task)
        → contains (tasks_of w st.worker_task_map) id ≡ true
        → D.tasks.get (U.to_string id) st.task_db ≡ (some t, none)
        → t.state ≢ pending

  -- The names of the workers and the events play no part.
  pub Inv-same :
      {TaskOk : D.tasks.State → Type 0} {LinkOk : D.task_workers.State → Type 0}
      (a b : MappingStorage D)
      → a.task_db ≡ b.task_db
      → a.task_worker_db ≡ b.task_worker_db
      → a.worker_task_map ≡ b.worker_task_map
      → a.worker_active_task_count_map ≡ b.worker_active_task_count_map
      → Inv TaskOk LinkOk a
      → Inv TaskOk LinkOk b
  Inv-same {TaskOk} {LinkOk} a b tasks links lists counts inv =
      subst (λ db. Inv TaskOk LinkOk (record b { task_db = db })) tasks
        (subst (λ db. Inv TaskOk LinkOk (record b { task_db = a.task_db; task_worker_db = db }))
          links
          (subst
            (λ ids. Inv TaskOk LinkOk (record b {
              task_db = a.task_db;
              task_worker_db = a.task_worker_db;
              worker_task_map = ids;
            }))
            lists
            (subst
              (λ n. Inv TaskOk LinkOk (record b {
                task_db = a.task_db;
                task_worker_db = a.task_worker_db;
                worker_task_map = a.worker_task_map;
                worker_active_task_count_map = n;
              }))
              counts
              (record {
                task_ok = inv.task_ok;
                link_ok = inv.link_ok;
                counted = inv.counted;
                once = inv.once;
                assigned = inv.assigned;
                listed = inv.listed;
                started = inv.started;
              }))))

  module _ (law : IsUuids U) {TaskOk : D.tasks.State → Type 0} (tasks : IsLawful D.tasks TaskOk)
      (id : ℕ) (t : Task) (db db' : D.tasks.State)
      (written : D.tasks.put (U.to_string id) t db ≡ ok db') (valid : TaskOk db) where
    pub get-put_self : D.tasks.get (U.to_string id) db' ≡ (some t, none)
    get-put_self =
        ground (arith, tasks.get-put (U.to_string id) (U.to_string id) t db db' written valid)

    pub get-put_ne :
        (j : ℕ)
        → (id == j) ≡ false
        → D.tasks.get (U.to_string j) db' ≡ D.tasks.get (U.to_string j) db
    get-put_ne j h = ground (
      arith,
      to_string-injective U law id j,
      tasks.get-put (U.to_string id) (U.to_string j) t db db' written valid,
    )

    -- A write changes the count of a list by what it changes of the task written.
    pub active-put :
        (ids : List ℕ)
        → Distinct ids
        → active db' ids + bit (contains ids id && is_counted (D.tasks.get (U.to_string id) db))
          ≡ active db ids + bit (contains ids id && is_active t.state)
    unfolding active contains
    active-put [] d = refl
    active-put (j ∷ ids) d = elim (nat_eq.dec id j) [
      | yes p ↦ ground (arith, p, active-put ids d.1, get-put_self)
      | no n ↦ ground (arith, get-put_ne j (==-ne id j n), active-put ids d.1)
    ]

module _ (U : Uuids) (D : Stores) where
  pub active-append :
      (db : D.tasks.State) (xs ys : List ℕ)
      → active U D db (xs ++ ys) ≡ active U D db xs + active U D db ys
  unfolding active
  active-append db [] ys = omega arith
  active-append db (x ∷ xs) ys = ground (arith, active-append db xs ys)

  pub active_one :
      (db : D.tasks.State) (id : ℕ)
      → active U D db (id ∷ []) ≡ bit (is_counted (D.tasks.get (U.to_string id) db))
  unfolding active
  active_one db id = ground arith
