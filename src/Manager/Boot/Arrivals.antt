-- ===== src/Manager/Boot/Arrivals.antt =====
-- internal/app/manager/boot.go: `waitForWorkersForever`, which takes in the workers that connect. A
-- loop that never ends is a list of connections here; the cancelled context is its end.
pub mod Staffing
use netbula.Base.{ℕ, String, Option, none, some, List, [], ◌∷◌}
use netbula.Base.Result.{Result, ok, err, ◌>>=◌}
use netbula.Manager.Cluster.{Response}
use netbula.Manager.Core.{Parts, Manager, refresh, add_worker_and_client}

-- `decode_info` reads the id and the name of the worker from the body of an answer.
module _ (P : Parts) (decode_info : String → Result (ℕ × String)) where
  -- The request for the worker's info, on the new connection.
  unfoldable pub fetch_info : P.net.Client → P.net.World → P.net.World × Result (ℕ × String)
  fetch_info client world =
      let (world', answer) = P.net.request client "GET" "http://worker/info" "" world in
      (world', (do resp ← answer; decode_info resp.body))

  -- One round, with what `connectAndCreateHttpClient` returned; `none` is a panic of
  -- `UpdateWorkerNodes`.
  unfoldable pub take_in : Result P.net.Client → Manager P → Option (Manager P)
  unfolding fetch_info
  take_in (err e) m = some m
  take_in (ok client) m =
      let (world, info) = fetch_info client m.world in
      let m' = record m { world = world } in
      elim info [
        | err e ↦ some m'
        | ok (uuid, name) ↦ refresh P (add_worker_and_client P m' uuid name client)
      ]

  unfoldable pub wait_for_workers : List (Result P.net.Client) → Manager P → Option (Manager P)
  unfolding take_in
  wait_for_workers [] m = some m
  wait_for_workers (connected ∷ rest) m = elim (take_in connected m) [
    | none ↦ none
    | some m' ↦ wait_for_workers rest m'
  ]
