-- ===== src/Manager/Cluster.antt =====
-- internal/app/manager/cluster.go: the connections to the workers. The requests to all workers run
-- in parallel; here they are made one after the other, in the order in which the answers arrive,
-- which the network chooses. Of the log lines, those of `detectNodeChanges` are kept.
pub mod Sync
pub mod Changes
use netbula.Base.{
  ℕ, String, not, Option, none, some, List, [], ◌∷◌, ◌++◌, ◌==◌, nat_eq, ◌<>◌, if◌then◌else◌,
}
use netbula.Base.Result.{Err, Result, ok, err, fresh, wrap, ◌>>=◌, context}
use netbula.Base.Dict.{Dict, lookup, insert}
use netbula.Task.{Task, TaskEvent}
use netbula.Node.{Node, Stats, stats_to_node}
use netbula.Uuids.{Uuids}
use netbula.Http.{status_ok, status_created, status_no_content}
use netbula.Manager.Cluster.Changes.{Notice, detect_node_changes}
use netbula.Manager.State.{Stores, MappingStorage, get_worker_ids, get_worker_metadata, update_task}

pub record Response : Type 0 where
  pub status_code : ℕ
  pub body : String

-- The HTTP clients, the network with the workers behind it, and encoding/json.
pub record Net : Type 1 where
  pub Client : Type 0
  pub World : Type 0
  pub request : Client → String → String → String → World → World × Result Response
  -- The order in which the answers of these workers arrive.
  pub arrival : World → List ℕ → List ℕ
  pub decode_stats : String → Result Stats
  -- A `null` in the list, at which `UpdateTask` would panic, is not represented.
  pub decode_tasks : String → Result (List Task)
  pub decode_task : String → Result Task
  pub decode_error : String → Result String
  pub encode_event : TaskEvent → Result String

pub record HttpClientCluster (N : Net) : Type 0 where
  pub worker_client_map : Dict ℕ N.Client
  pub worker_nodes : List Node
  -- What `detectNodeChanges` has told the logger, from the first call on.
  pub notices : List Notice

unfoldable pub new_cluster : (N : Net) → HttpClientCluster N
new_cluster N = record { worker_client_map = []; worker_nodes = []; notices = [] }

module _ (N : Net) where
  unfoldable pub get_client : HttpClientCluster N → ℕ → Result N.Client
  get_client cluster worker_id = elim (lookup worker_id cluster.worker_client_map) [
    | none ↦ err (fresh "client of worker is not in the WorkerClientMap")
    | some client ↦ ok client
  ]

  unfoldable pub add_client : HttpClientCluster N → ℕ → N.Client → HttpClientCluster N
  add_client cluster worker_id client = record cluster {
    worker_client_map = insert worker_id client cluster.worker_client_map;
  }

  unfoldable pub get_nodes : HttpClientCluster N → List Node
  get_nodes cluster = cluster.worker_nodes

  -- The part that `fetchNodeStats` and `fetchTasks` share.
  unfoldable pub fetch :
      {A : Type 0} → String → (String → Result A) → N.Client → N.World → N.World × Result A
  fetch url decode client world =
      let (world', answer) = N.request client "GET" url "" world in
      (
        world',
        (do
          resp ← context "failed to send the request" answer
          if not (resp.status_code == status_ok)
              then err (fresh "bad status code")
              else decode resp.body),
      )

  unfoldable pub fetch_node_stats : N.Client → N.World → N.World × Result Stats
  unfolding fetch
  fetch_node_stats = fetch "http://worker/stats" N.decode_stats

  unfoldable pub fetch_tasks : N.Client → N.World → N.World × Result (List Task)
  unfolding fetch
  fetch_tasks = fetch "http://worker/tasks" N.decode_tasks

  -- `postTask`
  unfoldable pub post_task : N.Client → TaskEvent → N.World → N.World × Result Task
  post_task client te world = elim (N.encode_event te) [
    | err e ↦ (world, err (wrap "failed to marshal the task event" e))
    | ok body ↦
        let (world', answer) = N.request client "POST" "http://worker/tasks" body world in
        (
          world',
          (do
            resp ← context "failed to send task event to worker" answer
            if not (resp.status_code == status_created)
                then (context "failed to decoding error response body" (N.decode_error resp.body)
                    >>= λ message. err (fresh message))
                else context "failed to unmarshal response body" (N.decode_task resp.body)),
        )
  ]

  unfoldable pub send_task : HttpClientCluster N → ℕ → TaskEvent → N.World → N.World × Result Task
  unfolding post_task
  send_task cluster target te world = elim (lookup target cluster.worker_client_map) [
    | none ↦ (world, err (fresh "failed to get HTTP client for taget worker"))
    | some client ↦
        let (world', answer) = post_task client te world in
        (world', context "failed to send the taskEvent to target worker" answer)
  ]

  module _ (U : Uuids) where
    -- `deleteTask`
    unfoldable pub delete_task : N.Client → ℕ → N.World → N.World × Option Err
    delete_task client id world =
        let (world', answer) =
          N.request client "DELETE" ("http://worker/tasks/" <> U.to_string id) "" world in
        elim answer [
          | err e ↦ (world', some (wrap "failed to send request to worker" e))
          | ok resp ↦ (
            world',
            (if not (resp.status_code == status_no_content)
                then some (fresh "bad status code")
                else none),
          )
        ]

    unfoldable pub stop_task : HttpClientCluster N → ℕ → ℕ → N.World → N.World × Option Err
    unfolding delete_task
    stop_task cluster target id world = elim (lookup target cluster.worker_client_map) [
      | none ↦ (world, some (fresh "failed to get HTTP client for taget worker"))
      | some client ↦
          let (world', e) = delete_task client id world in
          elim e [
            | none ↦ (world', none)
            | some e ↦ (world', some (wrap "failed to delete the task" e))
          ]
    ]

    module _ (D : Stores) where
      -- The answers of the workers, as nodes; workers that cannot be asked are left out. `none` is
      -- the panic of `StatsToNode`.
      unfoldable pub collect_nodes :
          MappingStorage D → HttpClientCluster N → List ℕ → N.World → Option (N.World × List Node)
      collect_nodes state cluster [] world = some (world, [])
      collect_nodes state cluster (w ∷ ws) world = elim (lookup w cluster.worker_client_map) [
        | none ↦ collect_nodes state cluster ws world
        | some client ↦
            let (world', answer) = fetch_node_stats client world in
            elim answer [
              | err e ↦ collect_nodes state cluster ws world'
              | ok stats ↦
                  let (name, count) = get_worker_metadata U D state w in
                  elim (stats_to_node w name count stats) [
                    | none ↦ none
                    | some node ↦ elim (collect_nodes state cluster ws world') [
                      | none ↦ none
                      | some (world'', nodes) ↦ some (world'', node ∷ nodes)
                    ]
                  ]
            ]
      ]

      unfoldable pub update_worker_nodes :
          MappingStorage D → HttpClientCluster N → N.World → Option (N.World × HttpClientCluster N)
      unfolding collect_nodes get_nodes detect_node_changes
      update_worker_nodes state cluster world =
          elim (collect_nodes state cluster (N.arrival world (get_worker_ids U D state)) world) [
            | none ↦ none
            | some (world', nodes) ↦
                let told = cluster.notices ++ detect_node_changes (get_nodes cluster) nodes in
                some (world', record cluster { worker_nodes = nodes; notices = told })
          ]

      -- One worker's tasks; an update that fails is logged and passed over.
      unfoldable pub update_each : MappingStorage D → List Task → MappingStorage D
      update_each state [] = state
      update_each state (t ∷ ts) = update_each (update_task U D state t).0 ts

      unfoldable pub sync_one :
          HttpClientCluster N → ℕ → MappingStorage D → N.World → N.World × MappingStorage D
      unfolding update_each
      sync_one cluster w state world = elim (lookup w cluster.worker_client_map) [
        | none ↦ (world, state)
        | some client ↦
            let (world', answer) = fetch_tasks client world in
            elim answer [ err e ↦ (world', state) | ok ts ↦ (world', update_each state ts) ]
      ]

      unfoldable pub sync_from :
          HttpClientCluster N → List ℕ → MappingStorage D → N.World → N.World × MappingStorage D
      unfolding sync_one
      sync_from cluster [] state world = (world, state)
      sync_from cluster (w ∷ ws) state world =
          let (world', state') = sync_one cluster w state world in
          sync_from cluster ws state' world'

      unfoldable pub sync_tasks :
          HttpClientCluster N → MappingStorage D → N.World → N.World × MappingStorage D
      unfolding sync_from
      sync_tasks cluster state world =
          sync_from cluster (N.arrival world (get_worker_ids U D state)) state world
