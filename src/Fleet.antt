-- ===== src/Fleet.antt =====
-- The manager with the workers behind its network: a request that internal/app/manager/cluster.go
-- sends is handled by internal/app/worker/handler.go of the worker at the other end.
pub mod Quiet
pub mod Delivery
pub mod Stopping
use netbula.Base.{ℕ, String, ◌≡◌, ◌≢◌, nat_eq, Option, none, some, List, [], ◌∷◌, ◌<>◌}
use netbula.Base.Result.{ok}
use netbula.Base.Dict.{lookup}
use netbula.Task.{TaskEvent}
use netbula.Uuids.{Uuids}
use netbula.Http.{Reply, status_ok}
use netbula.Worker
use netbula.Worker.{Worker}
use netbula.Worker.Handlers.{start_task_handler, stop_task_handler}
use netbula.Manager.Cluster.{Net, Response, HttpClientCluster}

-- The status that the client reads: that of the first reply, 200 if there is none.
abbrev pub status_of : List Reply → ℕ
status_of [] = status_ok
status_of (r ∷ replies) = r.status_code

-- The worker with this id, and the worker to which a client is connected.
pub record Fleet (N : Net) (W : netbula.Worker.Parts) : Type 0 where
  pub worker_at : N.World → ℕ → Worker W
  pub reach : N.Client → ℕ

-- A request that is answered was handled once, with the body and the path that were sent. One that
-- is not answered may have been handled or not.
pub record IsServing (N : Net) (U : Uuids) (W : netbula.Worker.Parts) (F : Fleet N W) : Type 0 where
  -- Both programs write an id in the same way.
  pub to_string-same : (id : ℕ) → U.to_string id ≡ W.uuids.to_string id
  -- The other workers do not see it.
  pub request-other :
      (client : N.Client) (method url body : String) (world : N.World) (v : ℕ)
      → v ≢ F.reach client
      → F.worker_at (N.request client method url body world).0 v ≡ F.worker_at world v
  -- The GET handlers change nothing.
  pub request-get :
      (client : N.Client) (url : String) (world : N.World) (v : ℕ)
      → F.worker_at (N.request client "GET" url "" world).0 v ≡ F.worker_at world v
  pub request-post :
      (client : N.Client) (te : TaskEvent) (body : String) (world : N.World) (resp : Response)
      → N.encode_event te ≡ ok body
      → (N.request client "POST" "http://worker/tasks" body world).1 ≡ ok resp
      → let (w, replies) = start_task_handler W (F.worker_at world (F.reach client)) (ok te) in
        (F.worker_at (N.request client "POST" "http://worker/tasks" body world).0 (F.reach client)
          ≡ w)
        × (resp.status_code ≡ status_of replies)
  pub request-delete :
      (client : N.Client) (id : ℕ) (world : N.World) (resp : Response)
      → let url = "http://worker/tasks/" <> U.to_string id in
        (N.request client "DELETE" url "" world).1 ≡ ok resp
        → let (w, replies) =
            stop_task_handler W (F.worker_at world (F.reach client)) (U.to_string id) in
          (F.worker_at (N.request client "DELETE" url "" world).0 (F.reach client) ≡ w)
          × (resp.status_code ≡ status_of replies)

-- Each client in the map of the cluster is connected to the worker under whose id it stands.
abbrev pub Connected :
    {N : Net} {W : netbula.Worker.Parts} → Fleet N W → HttpClientCluster N → Type 0
Connected {N} F cluster =
    (w : ℕ) (client : N.Client)
    → lookup w cluster.worker_client_map ≡ some client
    → F.reach client ≡ w
