-- ===== src/Control/Api.antt =====
-- internal/app/control/api.go: the requests of the control program. `none` is a `log.Panic`; a status
-- that is not the expected one is only logged.
use netbula.Base.{String, Option, none, some, List, ◌<>◌}
use netbula.Base.Result.{Result, ok, err}
use netbula.Task.{Task}
use netbula.Node.{Node}
use netbula.Manager.Cluster.{Response}

-- The HTTPS client of `createCustomHttpsClient`, the network, and encoding/json. A request takes the
-- fingerprint that is pinned, the method, the URL, the token for the header and the body; an error
-- is one of making the request, of sending it, or of reading the body of the answer.
pub record Https : Type 1 where
  pub World : Type 0
  pub request : String → String → String → String → String → World → World × Result Response
  pub decode_tasks : String → Result (List Task)
  pub decode_nodes : String → Result (List Node)

abbrev pub tasks_url : String → String
tasks_url manager_address = ("https://" <> manager_address) <> "/tasks"

abbrev pub task_url : String → String → String
task_url manager_address task_id = (("https://" <> manager_address) <> "/tasks/") <> task_id

abbrev pub nodes_url : String → String
nodes_url manager_address = ("https://" <> manager_address) <> "/nodes"

module _ (H : Https) where
  unfoldable pub start_task : String → String → String → String → H.World → Option H.World
  start_task manager_address token cert_fingerprint task_data world =
      let (world', answer) =
        H.request cert_fingerprint "POST" (tasks_url manager_address) token task_data world in
      elim answer [ err e ↦ none | ok resp ↦ some world' ]

  unfoldable pub get_tasks : String → String → String → H.World → Option (H.World × List Task)
  get_tasks manager_address token cert_fingerprint world =
      let (world', answer) =
        H.request cert_fingerprint "GET" (tasks_url manager_address) token "" world in
      elim answer [
        | err e ↦ none
        | ok resp ↦ elim (H.decode_tasks resp.body) [
          | err e ↦ none
          | ok tasks ↦ some (world', tasks)
        ]
      ]

  unfoldable pub stop_task : String → String → String → String → H.World → Option H.World
  stop_task manager_address token cert_fingerprint task_id world =
      let (world', answer) =
        H.request cert_fingerprint "DELETE" (task_url manager_address task_id) token "" world in
      elim answer [ err e ↦ none | ok resp ↦ some world' ]

  unfoldable pub get_nodes : String → String → String → H.World → Option (H.World × List Node)
  get_nodes manager_address token cert_fingerprint world =
      let (world', answer) =
        H.request cert_fingerprint "GET" (nodes_url manager_address) token "" world in
      elim answer [
        | err e ↦ none
        | ok resp ↦ elim (H.decode_nodes resp.body) [
          | err e ↦ none
          | ok nodes ↦ some (world', nodes)
        ]
      ]
