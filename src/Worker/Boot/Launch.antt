-- ===== src/Worker/Boot/Launch.antt =====
-- internal/app/worker/boot.go, `Run`, and `NewWorker` of internal/app/worker/worker.go: the worker as
-- it is started. The sessions that `Run` then opens are left out.
use netbula.Base.{ℕ, String, ◌<>◌, Option, none, some, [], ◌∷◌}
use netbula.Base.Result.{Result, ok, err}
use netbula.Task.{Task}
use netbula.Uuids.{Uuids}
use netbula.Floats.{Floats}
use netbula.Queue.{Queue}
use netbula.Docker.{Client}
use netbula.Store.Persistent.{Bolt, Codec, persistent_store, new_persistent_store}
use netbula.Configs.{Files, WorkerConfig}
use netbula.Worker
use netbula.Worker.{Worker}
use netbula.Worker.Boot.{parse_worker_args, setup_worker_config}

-- The worker of `Run` stores its tasks in a bucket.
abbrev pub persistent_parts :
    Uuids → Floats → Queue Task → Client → (B : Bolt) → Codec Task → netbula.Worker.Parts
persistent_parts U F Q C B json = record {
  uuids = U;
  floats = F;
  queue = Q;
  tasks = persistent_store B json;
  docker = C;
}

module _ (U : Uuids) (L : Floats) (Q : Queue Task) (C : Client) (B : Bolt) (json : Codec Task) where
  -- `NewWorker` for "persistent". `opened` is what `bolt.Open` returned, the database as it is seen
  -- through a bucket; `none` is a `log.Fatal`.
  unfoldable pub new_worker :
      ℕ
      → String
      → Q.State
      → Result (String → B.Db)
      → C.Daemon
      → Option (Worker (persistent_parts U L Q C B json))
  new_worker uuid name queue opened daemon = elim opened [
    | err e ↦ none
    | ok db ↦ elim (new_persistent_store B (db (name <> "_tasks"))) [
      | err e ↦ none
      | ok task_db ↦
          some
            (record { name = name; uuid = uuid; queue = queue; task_db = task_db; daemon = daemon })
    ]
  ]

  module _ (F : Files) (J : Codec WorkerConfig) where
    -- `Run`, up to the loop of sessions.
    unfoldable pub run :
        String
        → String
        → String
        → ℕ
        → F.Fs
        → Result (String → B.Db)
        → C.Daemon
        → Option (F.Fs × Worker (persistent_parts U L Q C B json))
    unfolding new_worker
    run manager_addr manager_cert_fingerprint name fresh_id fs opened daemon =
        let parsed = parse_worker_args (manager_addr ∷ manager_cert_fingerprint ∷ name ∷ []) in
        elim (setup_worker_config F J parsed fresh_id fs) [
          | none ↦ none
          | some (fs', config) ↦
              elim (new_worker config.uuid config.worker_name Q.new opened daemon) [
                | none ↦ none
                | some w ↦ some (fs', w)
              ]
        ]
