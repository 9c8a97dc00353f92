-- ===== src/Cmd/Serving.antt =====
-- cmd/manager.go: the application that the command makes, and what it prints.
use netbula.Base.{String, ◌≡◌, none, some, List, ◌∷◌, ◌++◌, ◌<>◌, string_eq}
use netbula.Base.Result.{Result}
use netbula.Store.Persistent.{Codec}
use netbula.Security.{Crypto, verify_peer_certificate}
use netbula.Configs.{Files, ManagerConfig, get_config_from_file}
use netbula.Manager.Core.{Parts}
use netbula.Manager.Boot.App.{Sockets, App, certificate_of, create_tls_listener}
use netbula.Cmd.Manager.{manager_config_dir_path, manager_config_file_name}

module _ (P : Parts) (F : Files) (J : Codec ManagerConfig) (C : Crypto) (S : Sockets) where
  -- Whoever checks with the configured fingerprint accepts the configured certificate.
  abbrev pub Pinned : ManagerConfig → Type 0
  Pinned cfg =
      verify_peer_certificate C cfg.cert_fingerprint cfg.tls_certificate_in_bytes ≡ some none

  abbrev pub read_back : F.Fs → Result ManagerConfig
  read_back fs = get_config_from_file F J manager_config_dir_path manager_config_file_name fs

  abbrev pub Prints : String → List String → Type 0
  Prints line lines =
      (before : List String) × (after : List String) × (lines ≡ before ++ line ∷ after)

  abbrev pub token_line : ManagerConfig → String
  token_line cfg =
      ("Connection token(auth-token): " <> cfg.auth_token)
      <> " (Enter this when registering control program)"

  abbrev pub fingerprint_line : ManagerConfig → String
  fingerprint_line cfg =
      ("Tls certificate fingerprint(cert-fingerprint): " <> cfg.cert_fingerprint)
      <> " (Enter this when registering workers or control programs)"

  -- An application that runs as it is configured, and lines that show its token and fingerprint.
  pub record Configured (app : App S P) (lines : List String) : Type 0 where
    pub pinned : Pinned app.manager_configs
    pub token : app.auth_token ≡ app.manager_configs.auth_token
    pub token_shown : Prints (token_line app.manager_configs) lines
    pub fingerprint_shown : Prints (fingerprint_line app.manager_configs) lines
    pub listeners :
        (w : S.Listener) × (c : S.Listener) × (app.worker_connection_tls_listener
          ≡ create_tls_listener S (certificate_of app.manager_configs) w)
        × (app.control_connection_tls_listener
            ≡ create_tls_listener S (certificate_of app.manager_configs) c)
