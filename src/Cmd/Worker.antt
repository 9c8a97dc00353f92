-- ===== src/Cmd/Worker.antt =====
-- cmd/worker.go: the start of a worker, up to the sessions of `Run`.
use netbula.Base.{ℕ, String, Option}
use netbula.Base.Result.{Result}
use netbula.Task.{Task}
use netbula.Uuids.{Uuids}
use netbula.Floats.{Floats}
use netbula.Queue.{Queue}
use netbula.Docker.{Client}
use netbula.Store.Persistent.{Bolt, Codec}
use netbula.Configs.{Files, WorkerConfig}
use netbula.Worker.{Worker}
use netbula.Worker.Boot.Launch.{persistent_parts, run}

module _ (U : Uuids) (L : Floats) (Q : Queue Task) (C : Client) (B : Bolt) (json : Codec Task)
    (F : Files) (J : Codec WorkerConfig) where
  unfoldable pub worker_cmd :
      String
      → String
      → String
      → ℕ
      → F.Fs
      → Result (String → B.Db)
      → C.Daemon
      → Option (F.Fs × Worker (persistent_parts U L Q C B json))
  unfolding run
  worker_cmd manager_addr fingerprint name fresh_id fs opened daemon =
      run U L Q C B json F J manager_addr fingerprint name fresh_id fs opened daemon
