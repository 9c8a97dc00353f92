-- ===== src/Tests/Restarts.antt =====
-- A manager that is made again from its stores.
use netbula.Base.{
  ℕ, String, ◌≡◌, refl, ap, subst, none, some, true, arith, [], ◌∷◌, contains, nat_eq, string_eq,
}
use netbula.Base.Dict.{Dict, insert, keys, lookup, get_or}
use netbula.Base.Result.{ok}
use netbula.Task.{TaskEvent}
use netbula.Store.Memory.{memory_store-IsLawful, entries, get}
use netbula.Uuids.{to_string-injective}
use netbula.Manager.State.Roster.{Roster}
use netbula.Manager.State.{MappingStorage, tasks_of, count_of}
use netbula.Manager.State.Invariant.{Inv}
use netbula.Manager.State.Rehydrate.{
  new_state, group_tasks, add_workers, count_workers, fetch_task, count_tasks,
}
use netbula.Manager.State.Grouping.{Canonical}
use netbula.Manager.State.Recover.{WellStored, new_state-Inv}
use netbula.Manager.Core.{Manager}
use netbula.Manager.Boot.Startup.{new}
use netbula.Manager.Boot.Recovery.{stores_of, new-restart}
use netbula.Tests.Examples.{Unique, linked_state, linked-Inv, ok-injective}
use netbula.Tests.Orders.{manager_parts}
use netbula.Tests.Samples.{unary, unary-IsUuids, memory, ticks, fifo-IsFifo}

abbrev crewed_state : MappingStorage memory
crewed_state = record linked_state { worker_name_db = (ticks 5, "east") ∷ []; workers = 5 ∷ [] }

abbrev ran : Manager manager_parts
ran = record {
  state = crewed_state;
  worker_cluster = record { worker_client_map = (5, tt) ∷ []; worker_nodes = []; notices = [] };
  pending = [];
  scheduler = tt;
  world = tt;
}

abbrev again : Manager manager_parts
again = record ran {
  worker_cluster = record { worker_client_map = []; worker_nodes = []; notices = [] };
}

again-new : new manager_parts tt (stores_of memory crewed_state) tt ≡ ok again
unfolding new new_state entries group_tasks add_workers count_workers count_tasks fetch_task get
    insert keys lookup get_or nat_eq string_eq
again-new = refl

crewed-Inv : Inv unary memory Unique Unique crewed_state
crewed-Inv = record {
  task_ok = linked-Inv.task_ok;
  link_ok = linked-Inv.link_ok;
  counted = linked-Inv.counted;
  once = linked-Inv.once;
  assigned = linked-Inv.assigned;
  listed = linked-Inv.listed;
  started = linked-Inv.started;
}

crewed-Roster : Roster unary memory Unique crewed_state
unfolding keys get lookup contains
crewed-Roster = record {
  name_ok = (refl, tt);
  distinct = (refl, tt);
  named = λ w. ground (arith, to_string-injective unary unary-IsUuids 5 w);
}

linked-Canonical :
    (es : Dict String ℕ) → ◌≡◌ (entries crewed_state.task_worker_db) (ok es) → Canonical unary es
unfolding entries
linked-Canonical es h =
    subst (Canonical unary) (ok-injective h) ((λ id p. ap ticks (ok-injective p)), tt)

named-Canonical :
    (es : Dict String String)
    → ◌≡◌ (entries crewed_state.worker_name_db) (ok es)
    → Canonical unary es
unfolding entries
named-Canonical es h =
    subst (Canonical unary) (ok-injective h) ((λ id p. ap ticks (ok-injective p)), tt)

linked-listed :
    (w id : ℕ)
    → memory.task_workers.get (ticks id) crewed_state.task_worker_db ≡ (some w, none)
    → contains crewed_state.workers w ≡ true
unfolding get lookup contains
linked-listed w id h = ground arith

crewed-new_state : new_state unary memory (stores_of memory crewed_state) ≡ ok crewed_state
unfolding new_state entries group_tasks add_workers count_workers count_tasks fetch_task get insert
    keys lookup get_or nat_eq string_eq
crewed-new_state = refl

crewed-WellStored : WellStored unary memory (stores_of memory crewed_state)
crewed-WellStored = record {
  canonical = linked-Canonical;
  started = λ w id t l g. crewed-Inv.started w id t (crewed-Inv.listed w id l) g;
}

new_state-Inv_example : Inv unary memory Unique Unique crewed_state
new_state-Inv_example =
    new_state-Inv unary memory (stores_of memory crewed_state) crewed_state crewed-new_state
      unary-IsUuids (memory_store-IsLawful ℕ) crewed-Inv.task_ok crewed-Inv.link_ok
      crewed-WellStored

new-restart_example :
    Inv unary memory Unique Unique again.state
    × Roster unary memory Unique again.state
    × (again.state.task_db ≡ crewed_state.task_db)
    × (again.state.event_db ≡ crewed_state.event_db)
    × (again.state.task_worker_db ≡ crewed_state.task_worker_db)
    × (again.state.worker_name_db ≡ crewed_state.worker_name_db)
    × ((w : ℕ) → contains again.state.workers w ≡ contains crewed_state.workers w)
    × ((w id : ℕ)
        → contains (tasks_of w again.state.worker_task_map) id
          ≡ contains (tasks_of w crewed_state.worker_task_map) id)
    × ((w : ℕ)
        → count_of w again.state.worker_active_task_count_map
          ≡ count_of w crewed_state.worker_active_task_count_map)
    × (again.pending ≡ [])
    × (again.worker_cluster.worker_client_map ≡ [])
new-restart_example =
    new-restart manager_parts unary-IsUuids (memory_store-IsLawful ℕ) (fifo-IsFifo TaskEvent)
      (memory_store-IsLawful String) tt tt ran again crewed-Inv crewed-Roster linked-Canonical
      named-Canonical linked-listed again-new
