-- ===== src/Worker/Boot.antt =====
-- internal/app/worker/boot.go: the worker's arguments and configuration.
pub mod Setup
pub mod Launch
pub mod Resume
use netbula.Base.{
  ℕ, String, Bool, true, false, not, ◌||◌, Option, none, some, List, [], ◌∷◌, ◌==◌, string_eq,
  if◌then◌else◌,
}
use netbula.Base.Result.{Err, Result, ok, err, fresh}
use netbula.Store.Persistent.{Codec}
use netbula.Configs.{
  Files, WorkerConfig, new_worker_config, override, store_config_to_file, get_config_from_file,
}

pub record ArgsParsedResult : Type 0 where
  pub manager_address : String
  pub manager_cert_fingerprint : String
  pub worker_name : String

unfoldable pub parse_worker_args : List String → Result ArgsParsedResult
parse_worker_args (address ∷ fingerprint ∷ name ∷ rest) = ok (record {
  manager_address = address;
  manager_cert_fingerprint = fingerprint;
  worker_name = name;
})
parse_worker_args _ = err (fresh "Not enough number of args")

abbrev pub worker_config_dir_path : String
worker_config_dir_path = "."

abbrev pub worker_config_file_name : String
worker_config_file_name = "worker_config.json"

module _ (F : Files) (J : Codec WorkerConfig) where
  -- The configuration to store; `none` is a `log.Fatal`.
  unfoldable pub choose_config : Result WorkerConfig → ArgsParsedResult → ℕ → Option WorkerConfig
  choose_config (err e) args fresh_id =
      if not (args.manager_address == "")
        || (not (args.manager_cert_fingerprint == "") || not (args.worker_name == ""))
      then none
      else some (
          new_worker_config fresh_id args.worker_name args.manager_address
            args.manager_cert_fingerprint)
  choose_config (ok config) args fresh_id = some (record config {
    manager_address = override args.manager_address config.manager_address;
    manager_cert_fingerprint =
        override args.manager_cert_fingerprint config.manager_cert_fingerprint;
    worker_name = override args.worker_name config.worker_name;
  })

  -- The last part of `setupWorkerConfig`.
  unfoldable pub save_config : WorkerConfig → F.Fs → Option (F.Fs × WorkerConfig)
  save_config config fs =
      let (fs', e) =
        store_config_to_file F J worker_config_dir_path worker_config_file_name config fs in
      elim e [ some e ↦ none | none ↦ some (fs', config) ]

  unfoldable pub setup_worker_config :
      Result ArgsParsedResult → ℕ → F.Fs → Option (F.Fs × WorkerConfig)
  unfolding choose_config save_config
  setup_worker_config parsed fresh_id fs =
      let existing = get_config_from_file F J worker_config_dir_path worker_config_file_name fs in
      elim parsed [
        | err e ↦ elim existing [ err e ↦ none | ok config ↦ some (fs, config) ]
        | ok args ↦ elim (choose_config existing args fresh_id) [
          | none ↦ none
          | some config ↦ save_config config fs
        ]
      ]
