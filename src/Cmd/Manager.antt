-- ===== src/Cmd/Manager.antt =====
-- cmd/manager.go: the start of the manager, up to the call of `Run`.
use netbula.Base.{String, ◌<>◌, Option, none, some, List, [], ◌∷◌}
use netbula.Base.Int.{ℤ}
use netbula.Base.Result.{Result, ok, err}
use netbula.Store.Persistent.{Codec}
use netbula.Security.{Crypto}
use netbula.Configs.{Files, ManagerConfig}
use netbula.Manager.State.{StateStores}
use netbula.Manager.Core.{Parts}
use netbula.Manager.Boot.{setup_config}
use netbula.Manager.Boot.App.{Sockets, App, create_tcp_listener, new_app}

abbrev pub manager_config_dir_path : String
manager_config_dir_path = "."

abbrev pub manager_config_file_name : String
manager_config_file_name = "manager_config.json"

module _ (S : Sockets) where
  -- The lines of package log, which stand without their time, and those of package fmt.
  abbrev pub greeting : ManagerConfig → List String
  greeting cfg =
      ("Manager API (Secure) for control program to connect to listening on "
        <> S.decimal cfg.server_api_port)
      ∷ ("Manager API (Secure) for workers to connect to listening on "
          <> S.decimal cfg.server_api_port)
      ∷ (("Connection token(auth-token): " <> cfg.auth_token)
          <> " (Enter this when registering control program)")
      ∷ (("Tls certificate fingerprint(cert-fingerprint): " <> cfg.cert_fingerprint)
          <> " (Enter this when registering workers or control programs)")
      ∷ []

module _ (P : Parts) (F : Files) (J : Codec ManagerConfig) (C : Crypto) (S : Sockets) where
  -- The part after the configuration is there.
  unfoldable pub serve :
      ManagerConfig
      → S.World
      → P.scheduler.State
      → Result (StateStores P.stores)
      → P.net.World
      → Option (S.World × App S P × List String)
  unfolding create_tcp_listener new_app
  serve cfg sockets scheduler created world =
      let (sockets', for_workers) = create_tcp_listener S cfg.worker_connection_port sockets in
      elim for_workers [
        | err e ↦ none
        | ok worker_listener ↦
            let (sockets'', for_control) = create_tcp_listener S cfg.server_api_port sockets' in
            elim for_control [
              | err e ↦ none
              | ok ctl_listener ↦
                  elim (new_app S P
                    (record {
                      manager_configs = cfg;
                      worker_connection_listener = worker_listener;
                      manager_server_api_listener = ctl_listener;
                    })
                    scheduler created world) [
                      | err e ↦ none
                      | ok app ↦ some (sockets'', app, greeting S cfg)
                    ]
            ]
      ]

  -- `none` is the end by `TerminateApplication` or by `log.Fatal`.
  unfoldable pub manager_cmd :
      ℤ
      → ℤ
      → F.Fs
      → C.World
      → S.World
      → P.scheduler.State
      → Result (StateStores P.stores)
      → P.net.World
      → Option (F.Fs × App S P × List String)
  unfolding serve
  manager_cmd worker_port api_port fs chance sockets scheduler created world =
      elim (setup_config F J C manager_config_dir_path manager_config_file_name worker_port api_port
        fs chance) [
          | none ↦ none
          | some (fs', chance', set_up) ↦ elim set_up [
            | err e ↦ none
            | ok cfg ↦ elim (serve cfg sockets scheduler created world) [
              | none ↦ none
              | some (sockets', app, lines) ↦ some (fs', app, lines)
            ]
          ]
        ]
