-- ===== src/Manager/Boot.antt =====
-- internal/app/manager/boot.go: the manager's configuration and the connections of workers.
pub mod Restart
pub mod Arrivals
pub mod Startup
pub mod App
pub mod Recovery
use netbula.Base.{ℕ, String, Bool, true, false, Option, none, some, List, [], ◌∷◌, if◌then◌else◌}
use netbula.Base.Int.{ℤ, pos, is_zero}
use netbula.Base.Result.{Err, Result, ok, err, wrap}
use netbula.Store.Persistent.{Codec}
use netbula.Security.{Crypto, generate_manager_identity}
use netbula.Configs.{
  Files, ManagerConfig, new_manager_config, store_config_to_file, get_config_from_file,
}

-- `if port != 0 { config.Port = port }`
abbrev pub override_port : ℤ → ℤ → ℤ
override_port flag stored = if is_zero flag then stored else flag

module _ (F : Files) (J : Codec ManagerConfig) (C : Crypto) where
  -- The configuration to store: from the file, or with a new identity if the file is missing or
  -- cannot be read; `none` is a `log.Fatal`.
  unfoldable pub choose_config :
      Result ManagerConfig → ℤ → ℤ → C.World → Option (C.World × ManagerConfig)
  choose_config (err e) worker_port api_port w = elim (generate_manager_identity C w) [
    | none ↦ none
    | some (w', i) ↦ some (w', new_manager_config worker_port api_port i.cert i.token i.cert_hash)
  ]
  choose_config (ok config) worker_port api_port w = some (
    w,
    record config {
      worker_connection_port = override_port worker_port config.worker_connection_port;
      server_api_port = override_port api_port config.server_api_port;
    },
  )

  unfoldable pub setup_config :
      String → String → ℤ → ℤ → F.Fs → C.World → Option (F.Fs × C.World × Result ManagerConfig)
  unfolding choose_config
  setup_config dir_path file_name worker_port api_port fs w =
      elim (choose_config (get_config_from_file F J dir_path file_name fs) worker_port api_port w) [
        | none ↦ none
        | some (w', config) ↦
            let (fs', e) = store_config_to_file F J dir_path file_name config fs in
            elim e [
              | some e ↦ some (fs', w', err (wrap "failed to store the manager configs to file" e))
              | none ↦ some (fs', w', ok config)
            ]
      ]
