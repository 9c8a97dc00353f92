-- ===== src/Tests/Choices.antt =====
-- A run of `SelectWorker` with E-PVM.
use netbula.Base.{ℕ, ◌≡◌, refl, true, false, some, List, [], ◌∷◌, contains, nat_eq, string_eq}
use netbula.Base.Int.{pos}
use netbula.Base.Dict.{lookup, insert, get_or}
use netbula.Base.Result.{ok}
use netbula.Task.{pending, TaskEvent}
use netbula.Node.{Node, stats_to_node}
use netbula.Store.Memory.{get}
use netbula.Scheduler.Epvm.{select_candidate_nodes, check_disk, disk_available, cost, score, pick}
use netbula.Manager.State.{get_worker_ids, get_worker_metadata}
use netbula.Manager.Cluster.{
  Net, HttpClientCluster, new_cluster, fetch_node_stats, update_worker_nodes, get_nodes,
}
use netbula.Manager.Core.{Manager, refresh, select_worker}
use netbula.Manager.Core.Selection.{IsArrival, epvm_parts, Placed, select_worker-Placed}
use netbula.Manager.Cluster.Changes.{Notice, node_disappeared, node_appeared, detect_node_changes}
use netbula.Manager.Cluster.Changes.Maps.{has_node}
use netbula.Manager.Cluster.Changes.Notices.{
  is_up, is_news, Watched, made, joined, updated, watched_notices-is_up,
}
use netbula.Tests.Examples.{linked_state}
use netbula.Tests.Samples.{size, ticks, plain, plain-IsOrdered, unary, fifo, memory, job, silent}

-- A network on which each worker answers with its load, which is the number of its client.
abbrev measuring : Net
measuring = record silent {
  Client = ℕ;
  request = λ client method url body world.
      (world, ok (record { status_code = 200; body = ticks client }));
  decode_stats = λ body. ok (record {
    mem_total_in_bytes = 16;
    mem_used_percent = 20;
    disk_total_in_bytes = 64;
    disk_used_percent = 30;
    cpu_count = pos 2;
    cpu_percents = 5 ∷ [];
    load_avg = size body;
  });
}

measuring-IsArrival : IsArrival measuring
measuring-IsArrival = record { arrival-Distinct = λ w ids d. d; arrival-contains = λ w ids x h. h }

-- Two workers, of which the second has the higher load.
abbrev loaded : Manager (epvm_parts plain measuring unary memory (fifo TaskEvent))
loaded = record {
  state = record linked_state { workers = 5 ∷ 6 ∷ [] };
  worker_cluster = record {
    worker_client_map = (5, 1) ∷ (6, 8) ∷ [];
    worker_nodes = [];
    notices = [];
  };
  pending = [];
  scheduler = tt;
  world = tt;
}

abbrev measured : ℕ → ℕ → Node
measured w count = record {
  name = "unknown";
  cores = pos 2;
  cpu_average_percent = 5;
  cpu_average_load = count;
  memory = pos 16;
  memory_allocated_percent = 20;
  disk = pos 64;
  disk_allocated_percent = 30;
  role = "";
  task_count = pos 0;
  worker_uuid = w;
}

abbrev seen : Manager (epvm_parts plain measuring unary memory (fifo TaskEvent))
seen = record loaded {
  worker_cluster = record loaded.worker_cluster {
    worker_nodes = record (measured 5 2) { task_count = pos 1 } ∷ measured 6 9 ∷ [];
    notices =
        node_appeared (record (measured 5 2) { task_count = pos 1 })
        ∷ node_appeared (measured 6 9)
        ∷ [];
  };
}

loaded-refresh :
    refresh (epvm_parts plain measuring unary memory (fifo TaskEvent)) loaded ≡ some seen
unfolding refresh update_worker_nodes insert nat_eq get_worker_ids lookup fetch_node_stats
    stats_to_node get_worker_metadata get get_or string_eq
loaded-refresh = refl

loaded-select_worker :
    select_worker (epvm_parts plain measuring unary memory (fifo TaskEvent)) loaded (job pending)
    ≡ some (seen, ok 5)
unfolding refresh update_worker_nodes insert nat_eq get_worker_ids lookup fetch_node_stats
    stats_to_node get_worker_metadata get get_or string_eq select_worker select_candidate_nodes
    get_nodes check_disk disk_available pick score cost
loaded-select_worker = refl

select_worker-Placed_example :
    Placed plain measuring unary memory
      (fifo TaskEvent)
      loaded
      (job pending)
      seen.worker_cluster.worker_nodes
      (ok 5)
unfolding contains nat_eq
select_worker-Placed_example =
    select_worker-Placed plain measuring unary memory (fifo TaskEvent) plain-IsOrdered
      measuring-IsArrival loaded seen seen (job pending) (ok 5) (refl, (refl, tt)) loaded-refresh
      (refl, (refl, tt)) loaded-select_worker

abbrev told : List Notice
told =
    node_appeared (record (measured 5 2) { task_count = pos 1 })
    ∷ node_appeared (measured 6 9)
    ∷ node_disappeared (record (measured 5 2) { task_count = pos 1 })
    ∷ []

-- Worker 5 has left.
abbrev deserted : HttpClientCluster measuring
deserted = record {
  worker_client_map = (6, 8) ∷ [];
  worker_nodes = measured 6 9 ∷ [];
  notices = told;
}

deserted-Watched : Watched measuring unary memory deserted
unfolding update_worker_nodes nat_eq get_worker_ids lookup fetch_node_stats stats_to_node
    get_worker_metadata get get_or string_eq insert detect_node_changes get_nodes new_cluster
deserted-Watched =
    updated loaded.state tt tt deserted
      (joined ((6, 8) ∷ [])
        (updated loaded.state tt tt seen.worker_cluster (joined ((5, 1) ∷ (6, 8) ∷ []) made) refl))
      refl

watched_notices-is_up_example :
    (is_up 5 false told ≡ has_node 5 deserted.worker_nodes) × (is_news 5 false told ≡ true)
watched_notices-is_up_example =
    watched_notices-is_up measuring unary memory 5 deserted deserted-Watched
