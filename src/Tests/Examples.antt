-- ===== src/Tests/Examples.antt =====
-- The theorems at concrete inputs.
use netbula.Base.{
  ℕ, String, ◌≡◌, refl, subst, ◌⊎◌, inl, none, some, [], ◌∷◌, arith, Distinct, contains, string_eq,
  nat_eq,
}
use netbula.Base.Int.{pos, negsuc}
use netbula.Base.Dict.{Dict, lookup, insert, get_or, keys}
use netbula.Base.Result.{Err, fresh, Result, ok, err}
use netbula.Task.{pending, scheduled, completed, failed, Task, valid_state_transition}
use netbula.Task.Lifecycle.{valid-History}
use netbula.Store.Memory.{memory_store-IsLawful, put, get, entries}
use netbula.Manager.State.{
  MappingStorage, update_task, assign_task_to_worker, merge_task, get_task, get_assigned_worker,
}
use netbula.Manager.State.Faults.{
  update_task_twice, update_task_error, assign_task_to_worker_finished, Wrong,
}
use netbula.Manager.State.Roster.{Roster}
use netbula.Manager.State.Invariant.{Inv}
use netbula.Manager.State.Rehydrate.{new_state, group_tasks, add_workers, count_workers}
use netbula.Manager.State.Recover.{new_state-Inv, WellStored}
use netbula.Manager.State.Grouping.{Canonical}
use netbula.Manager.State.Assign.{assign_task_to_worker-Inv}
use netbula.Manager.State.Update.{update_task-Inv, Permitted}
use netbula.Tests.Samples.{ticks, unary, unary-IsUuids, memory, empty_stores, job}

pub ok-injective : {A : Type 0} {a b : A} → ◌≡◌ {A = Result A} (ok a) (ok b) → a ≡ b
ok-injective h = ground arith

abbrev pub Unique : {V : Type 0} → Dict String V → Type 0
Unique db = Distinct (keys db)

abbrev pub empty_state : MappingStorage memory
empty_state = record {
  task_db = [];
  event_db = [];
  task_worker_db = [];
  worker_name_db = [];
  workers = [];
  worker_task_map = [];
  worker_active_task_count_map = [];
}

empty_state-new_state : new_state unary memory empty_stores ≡ ok empty_state
unfolding new_state keys entries group_tasks add_workers count_workers
empty_state-new_state = refl

empty-WellStored : WellStored unary memory empty_stores
unfolding get entries lookup
empty-WellStored = record {
  canonical = λ es h. subst (Canonical unary) (ok-injective h) tt;
  started = λ w id t h. ground arith;
}

pub empty-Inv : Inv unary memory Unique Unique empty_state
unfolding keys
empty-Inv =
    new_state-Inv unary memory empty_stores empty_state empty_state-new_state unary-IsUuids
      (memory_store-IsLawful ℕ) tt tt empty-WellStored

abbrev pub linked_state : MappingStorage memory
linked_state = record empty_state {
  task_db = (ticks 3, job scheduled) ∷ [];
  task_worker_db = (ticks 3, 5) ∷ [];
  worker_task_map = (5, 3 ∷ []) ∷ [];
  worker_active_task_count_map = (5, pos 1) ∷ [];
}

assign_example :
    assign_task_to_worker unary memory empty_state (job pending) 5
    ≡ (linked_state, ok (job scheduled))
unfolding assign_task_to_worker put insert get_or contains string_eq
assign_example = refl

abbrev finished_state : MappingStorage memory
finished_state = record linked_state {
  task_db = (ticks 3, job failed) ∷ [];
  worker_active_task_count_map = (5, pos 0) ∷ [];
}

update_example : update_task unary memory linked_state (job failed) ≡ (finished_state, none)
unfolding update_task put get insert get_or contains string_eq lookup nat_eq
update_example = refl

assign_task_to_worker-Inv_example :
    Inv unary memory Unique Unique linked_state
    × (get_task unary memory linked_state 3 ≡ (some (job scheduled), none))
    × (get_assigned_worker unary memory linked_state 3 ≡ (some 5, none))
    × (job scheduled ≡ job scheduled)
unfolding get lookup
assign_task_to_worker-Inv_example =
    assign_task_to_worker-Inv unary memory unary-IsUuids (memory_store-IsLawful Task)
      (memory_store-IsLawful ℕ) empty_state linked_state empty-Inv (job pending) (job scheduled) 5
      assign_example (inl refl)

pub linked-Inv : Inv unary memory Unique Unique linked_state
unfolding get lookup
linked-Inv =
    (assign_task_to_worker-Inv unary memory unary-IsUuids (memory_store-IsLawful Task)
      (memory_store-IsLawful ℕ) empty_state linked_state empty-Inv (job pending) (job scheduled) 5
      assign_example (inl refl)).0

linked-Permitted :
    Permitted unary memory unary-IsUuids
      (memory_store-IsLawful Task)
      linked_state
      finished_state
      (job failed)
      linked-Inv
unfolding get lookup string_eq valid_state_transition
linked-Permitted = λ x h. valid-History x.state failed (ground arith)

update_task-Inv_example : Inv unary memory Unique Unique finished_state
update_task-Inv_example =
    update_task-Inv unary memory unary-IsUuids (memory_store-IsLawful Task) linked_state
      finished_state (job failed) linked-Inv linked-Permitted update_example

finished-Inv : Inv unary memory Unique Unique finished_state
finished-Inv =
    update_task-Inv unary memory unary-IsUuids (memory_store-IsLawful Task) linked_state
      finished_state (job failed) linked-Inv linked-Permitted update_example

abbrev cancelled_state : MappingStorage memory
cancelled_state = record finished_state {
  task_db = (ticks 3, job completed) ∷ [];
  worker_active_task_count_map = (5, negsuc 0) ∷ [];
}

update_task_twice_example :
    (v : ℕ) × (memory.task_workers.get (ticks 3) finished_state.task_worker_db ≡ (some v, none))
    × Wrong unary memory unary-IsUuids
        (memory_store-IsLawful Task)
        finished_state
        cancelled_state
        finished-Inv
        v
unfolding update_task put get insert get_or contains string_eq lookup nat_eq
update_task_twice_example =
    update_task_twice unary memory unary-IsUuids (memory_store-IsLawful Task) finished_state
      cancelled_state finished-Inv (job failed) (job completed) refl refl refl (λ h. ground arith)
      refl

abbrev reused_state : MappingStorage memory
reused_state = record finished_state { task_db = (ticks 3, job scheduled) ∷ [] }

assign_task_to_worker_finished_example :
    (memory.tasks.get (ticks 3) reused_state.task_db
      ≡ (some (record (job pending) { state = scheduled }), none))
    × Wrong unary memory unary-IsUuids
        (memory_store-IsLawful Task)
        finished_state
        reused_state
        finished-Inv
        5
unfolding assign_task_to_worker put get insert get_or contains string_eq lookup nat_eq
assign_task_to_worker_finished_example =
    assign_task_to_worker_finished unary memory unary-IsUuids (memory_store-IsLawful Task)
      finished_state reused_state finished-Inv (memory_store-IsLawful ℕ) (job failed) (job pending)
      (job scheduled) 5 refl refl refl refl

update_task_error_example :
    (empty_state.task_db ≡ empty_state.task_db)
    × (empty_state.task_worker_db ≡ empty_state.task_worker_db)
    × (empty_state.event_db ≡ empty_state.event_db)
    × (empty_state.worker_name_db ≡ empty_state.worker_name_db)
    × (empty_state.workers ≡ empty_state.workers)
    × (empty_state.worker_task_map ≡ empty_state.worker_task_map)
    × ((empty_state.worker_active_task_count_map ≡ empty_state.worker_active_task_count_map)
        ⊎ ((x : Task) × (f : Err) × (memory.tasks.get (ticks 3) empty_state.task_db
              ≡ (some x, none))
            × (memory.tasks.put (ticks 3) (merge_task x (job failed)) empty_state.task_db ≡ err f)))
unfolding update_task get lookup
update_task_error_example =
    update_task_error unary memory empty_state empty_state (job failed)
      (fresh "task not found in TaskDb") refl

pub empty-Roster : Roster unary memory Unique empty_state
unfolding keys get lookup contains
empty-Roster = record { name_ok = tt; distinct = tt; named = λ w. refl }
