-- ===== src/Worker/Boot/Setup.antt =====
-- internal/app/worker/boot.go: `setupWorkerConfig` on a first and on a later start.
use netbula.Base.{
  ℕ, String, ◌≡◌, ◌⊎◌, inl, inr, Option, none, some, [], ◌∷◌, arith, Option-cases, ◌==◌, string_eq,
  ==-eq, Bool-cases,
}
use netbula.Base.Result.{Err, Result, ok, err}
use netbula.Store.Persistent.{Codec, IsCodec}
use netbula.Configs.{
  Files, IsFiles, WorkerConfig, override, store_config_to_file, get_config_from_file,
  new_worker_config,
}
use netbula.Configs.Setup.{get_config_from_file-store_config_to_file}
use netbula.Worker.Boot.{
  parse_worker_args, setup_worker_config, worker_config_dir_path, worker_config_file_name,
}

module _ (F : Files) (J : Codec WorkerConfig) where
  abbrev pub read_back : F.Fs → Result WorkerConfig
  read_back fs = get_config_from_file F J worker_config_dir_path worker_config_file_name fs

  abbrev pub store_back : WorkerConfig → F.Fs → F.Fs × Option Err
  store_back config fs =
      store_config_to_file F J worker_config_dir_path worker_config_file_name config fs

  -- Without a configuration file, a worker that is given an address, a fingerprint or a name ends;
  -- it goes on only if none of the three is given, and then with all three empty.
  pub setup_worker_config_first :
      (address fingerprint name : String) (fresh_id : ℕ) (fs : F.Fs) (e : Err)
      → read_back fs ≡ err e
      → let outcome =
          setup_worker_config F J
            (parse_worker_args (address ∷ fingerprint ∷ name ∷ []))
            fresh_id
            fs in
        (outcome ≡ none)
        ⊎ ((address ≡ "")
            × (fingerprint ≡ "")
            × (name ≡ "")
            × (fs' : F.Fs) × (outcome ≡ some (fs', new_worker_config fresh_id "" "" "")))
  unfolding setup_worker_config parse_worker_args
  setup_worker_config_first address fingerprint name fresh_id fs e h =
      elim (Bool-cases (address == "")) [
        | inr a ↦ inl (ground arith)
        | inl a ↦ elim (Bool-cases (fingerprint == "")) [
          | inr b ↦ inl (ground arith)
          | inl b ↦ elim (Bool-cases (name == "")) [
            | inr c ↦ inl (ground arith)
            | inl c ↦
                let config = new_worker_config fresh_id name address fingerprint in
                elim (Option-cases (store_back config fs).1) [
                  | inr (x, n) ↦ inl (ground arith)
                  | inl n ↦ inr (
                    ==-eq address "" a,
                    ==-eq fingerprint "" b,
                    ==-eq name "" c,
                    (store_back config fs).0,
                    ground (arith, ==-eq address "" a, ==-eq fingerprint "" b, ==-eq name "" c),
                  )
                ]
          ]
        ]
      ]

  -- With a configuration in the file, a worker keeps its id; each setting is the one given or else,
  -- where it is given as empty, the stored one. The result is stored for the next start; the worker
  -- ends only if storing fails.
  pub setup_worker_config_again :
      (law : IsFiles F) (json : IsCodec J) (address fingerprint name : String) (fresh_id : ℕ)
      (fs : F.Fs) (config : WorkerConfig)
      → read_back fs ≡ ok config
      → let next : WorkerConfig = record config {
        manager_address = override address config.manager_address;
        manager_cert_fingerprint = override fingerprint config.manager_cert_fingerprint;
        worker_name = override name config.worker_name;
      } in
        let outcome =
          setup_worker_config F J
            (parse_worker_args (address ∷ fingerprint ∷ name ∷ []))
            fresh_id
            fs in
        (fs' : F.Fs) × (((outcome ≡ some (fs', next)) × (read_back fs' ≡ ok next))
          ⊎ ((outcome ≡ none) × (e : Err) × (store_back next fs ≡ (fs', some e))))
  unfolding setup_worker_config parse_worker_args
  setup_worker_config_again law json address fingerprint name fresh_id fs config h =
      let next : WorkerConfig = record config {
        manager_address = override address config.manager_address;
        manager_cert_fingerprint = override fingerprint config.manager_cert_fingerprint;
        worker_name = override name config.worker_name;
      } in
      (
        (store_back next fs).0,
        elim (Option-cases (store_back next fs).1) [
          | inl n ↦ inl (
            ground arith,
            get_config_from_file-store_config_to_file F law J json worker_config_dir_path
                worker_config_file_name next fs _ (ground arith),
          )
          | inr (e, n) ↦ inr (ground arith, e, ground arith)
        ],
      )
