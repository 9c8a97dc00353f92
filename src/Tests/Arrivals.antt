-- ===== src/Tests/Arrivals.antt =====
-- A run of the loop that takes in the workers.
use netbula.Base.{ℕ, String, ◌≡◌, refl, none, some, [], ◌∷◌, arith, nat_eq, string_eq}
use netbula.Base.Dict.{lookup, insert}
use netbula.Base.Result.{Result, ok, err, fresh}
use netbula.Task.{running, TaskEvent}
use netbula.Store.Memory.{memory_store-IsLawful, get, put}
use netbula.Scheduler.Epvm.{epvm}
use netbula.Manager.Cluster.{Net, update_worker_nodes, fetch_node_stats, add_client}
use netbula.Manager.State.{register_worker, get_worker_ids}
use netbula.Manager.Core
use netbula.Manager.Core.{Manager, refresh, add_worker_and_client}
use netbula.Manager.Boot.Arrivals.{fetch_info, wait_for_workers}
use netbula.Manager.Boot.Arrivals.Staffing.{Staffed, wait_for_workers-Staffed}
use netbula.Fleet.{Fleet}
use netbula.Tests.Examples.{Unique, empty_state, empty-Roster}
use netbula.Tests.Runs.{parts, worker}
use netbula.Tests.Samples.{unary, unary-IsUuids, plain, fifo, memory, ticks, silent}

-- A network on which every client reaches worker 5, which does not tell its statistics.
abbrev greeting : Net
greeting = record silent {
  request = λ client method url body world. (world, ok (record { status_code = 200; body = "" }));
}

abbrev decode_info : String → Result (ℕ × String)
decode_info body = ok (5, "east")

abbrev greeted : netbula.Manager.Core.Parts
greeted = record {
  uuids = unary;
  stores = memory;
  net = greeting;
  queue = fifo TaskEvent;
  scheduler = epvm plain;
}

abbrev alone : Fleet greeting (parts none)
alone = record { worker_at = λ world v. worker none running; reach = λ client. 5 }

abbrev fresh_manager : Manager greeted
fresh_manager = record {
  state = empty_state;
  worker_cluster = record { worker_client_map = []; worker_nodes = []; notices = [] };
  pending = [];
  scheduler = tt;
  world = tt;
}

abbrev joined : Manager greeted
joined = record fresh_manager {
  state = record empty_state { worker_name_db = (ticks 5, "east") ∷ []; workers = 5 ∷ [] };
  worker_cluster = record { worker_client_map = (5, tt) ∷ []; worker_nodes = []; notices = [] };
}

fresh_manager-Staffed : Staffed greeted (parts none) alone Unique fresh_manager
unfolding lookup
fresh_manager-Staffed = record {
  roster = empty-Roster;
  connected = λ w client l. ground arith;
  manned = λ w client l. ground arith;
}

decode_info-honest :
    (client : Unit) (a b : Unit) (uuid : ℕ) (name : String)
    → fetch_info greeted decode_info client a ≡ (b, ok (uuid, name))
    → 5 ≡ uuid
unfolding fetch_info
decode_info-honest client a b uuid name h = ground arith

joined-wait_for_workers :
    wait_for_workers greeted decode_info (err (fresh "EOF") ∷ ok tt ∷ ok tt ∷ []) fresh_manager
    ≡ some joined
unfolding wait_for_workers fetch_info refresh add_worker_and_client register_worker add_client
    update_worker_nodes get_worker_ids fetch_node_stats lookup insert get put nat_eq string_eq
joined-wait_for_workers = refl

-- The first connection fails, and the worker connects twice.
wait_for_workers-Staffed_example : Staffed greeted (parts none) alone Unique joined
wait_for_workers-Staffed_example =
    wait_for_workers-Staffed greeted (parts none) alone Unique unary-IsUuids
      (memory_store-IsLawful String) decode_info decode_info-honest
      (err (fresh "EOF") ∷ ok tt ∷ ok tt ∷ []) fresh_manager joined joined-wait_for_workers
      fresh_manager-Staffed
