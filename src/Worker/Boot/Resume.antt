-- ===== src/Worker/Boot/Resume.antt =====
-- internal/app/worker/boot.go: `Run` of a worker that has run before.
use netbula.Base.{ℕ, String, ◌≡◌, ◌<>◌, inl, inr, some, [], ◌∷◌, arith, string_eq, Option-cases}
use netbula.Base.Result.{Result, ok, Result-cases}
use netbula.Task.{Task}
use netbula.Uuids.{Uuids}
use netbula.Floats.{Floats}
use netbula.Queue.{Queue, IsFifo}
use netbula.Docker.{Client}
use netbula.Store.Persistent.{Bolt, Codec, IsCodec, new_persistent_store}
use netbula.Configs.{Files, IsFiles, WorkerConfig, override}
use netbula.Worker.{Worker}
use netbula.Worker.Boot.{parse_worker_args}
use netbula.Worker.Boot.Setup.{read_back, setup_worker_config_again}
use netbula.Worker.Boot.Launch.{persistent_parts, new_worker, run}

module _ (U : Uuids) (L : Floats) (Q : Queue Task) (C : Client) (B : Bolt) (json : Codec Task)
    (fifo : IsFifo Q) (F : Files) (law : IsFiles F) (J : Codec WorkerConfig)
    (codec : IsCodec J) where
  new_worker_parts :
      (uuid : ℕ) (name : String) (queue : Q.State) (opened : Result (String → B.Db))
      (daemon : C.Daemon) (w : Worker (persistent_parts U L Q C B json))
      → new_worker U L Q C B json uuid name queue opened daemon ≡ some w
      → (w.uuid ≡ uuid)
        × (w.name ≡ name)
        × (w.queue ≡ queue)
        × (db : String → B.Db) × (opened ≡ ok db)
        × (new_persistent_store B (db (name <> "_tasks")) ≡ ok w.task_db)
  unfolding new_worker
  new_worker_parts uuid name queue opened daemon w h = elim (Result-cases opened) [
    | inl (e, p) ↦ absurd (ground arith)
    | inr (db, p) ↦ elim (Result-cases (new_persistent_store B (db (name <> "_tasks")))) [
      | inl (e, q) ↦ absurd (ground arith)
      | inr (task_db, q) ↦ (ground arith, ground arith, ground arith, db, p, ground arith)
    ]
  ]

  -- A worker that is started with a configuration in its file and that goes on keeps its id; each
  -- setting is the one given or else, where it is given as empty, the stored one, and is what the
  -- next start reads. Nothing is queued, and its tasks are those of the bucket that is named after
  -- its name as it now is.
  pub run_resumed :
      (address fingerprint name : String) (fresh_id : ℕ) (fs fs' : F.Fs) (config : WorkerConfig)
      (opened : Result (String → B.Db)) (daemon : C.Daemon)
      (w : Worker (persistent_parts U L Q C B json))
      → read_back F J fs ≡ ok config
      → run U L Q C B json F J address fingerprint name fresh_id fs opened daemon ≡ some (fs', w)
      → (w.uuid ≡ config.uuid)
        × (w.name ≡ override name config.worker_name)
        × (Q.contents w.queue ≡ [])
        × ((db : String → B.Db) × (opened ≡ ok db)
            × (new_persistent_store B (db (w.name <> "_tasks")) ≡ ok w.task_db))
        × (read_back F J fs'
            ≡ ok (record config {
              manager_address = override address config.manager_address;
              manager_cert_fingerprint = override fingerprint config.manager_cert_fingerprint;
              worker_name = override name config.worker_name;
            }))
  unfolding run
  run_resumed address fingerprint name fresh_id fs fs' config opened daemon w stored h =
      let parsed = parse_worker_args (address ∷ fingerprint ∷ name ∷ []) in
      let next : WorkerConfig = record config {
        manager_address = override address config.manager_address;
        manager_cert_fingerprint = override fingerprint config.manager_cert_fingerprint;
        worker_name = override name config.worker_name;
      } in
      let (fs'', setup) =
        setup_worker_config_again F J law codec address fingerprint name fresh_id fs config
          stored in
      elim setup [
        | inr (ended, e, failed) ↦ absurd (ground arith)
        | inl (kept, again) ↦
            elim (Option-cases
              (new_worker U L Q C B json next.uuid next.worker_name Q.new opened daemon)) [
                | inl p ↦ absurd (ground arith)
                | inr (v, p) ↦
                    let same : v ≡ w = ground arith in
                    let (id, named, queue, db, o, tasks) =
                      new_worker_parts next.uuid next.worker_name Q.new opened daemon v p in
                    (
                      ground arith,
                      ground arith,
                      ground (arith, fifo.contents-new),
                      (db, o, ground arith),
                      ground arith,
                    )
              ]
      ]
