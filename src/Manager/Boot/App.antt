-- ===== src/Manager/Boot/App.antt =====
-- internal/app/manager/boot.go: the application of the manager, with the listeners that it is given.
use netbula.Base.{String, List, [], ◌∷◌, ◌<>◌}
use netbula.Base.Int.{ℤ}
use netbula.Base.Result.{Result, ok, ◌>>=◌, context}
use netbula.Security.{Certificate}
use netbula.Configs.{ManagerConfig}
use netbula.Manager.State.{StateStores}
use netbula.Manager.Core.{Parts, Manager}
use netbula.Manager.Boot.Startup.{new}

-- internal/networks/security/security.go: the part of `tls.Config` that the manager sets.
pub record TlsConfig : Type 0 where
  pub certificates : List Certificate

unfoldable pub get_manager_tls_config : Certificate → TlsConfig
get_manager_tls_config tls_certificate = record { certificates = tls_certificate ∷ [] }

-- The certificate that `NewApp` makes of the stored bytes.
abbrev pub certificate_of : ManagerConfig → Certificate
certificate_of config = record {
  certificate = config.tls_certificate_in_bytes;
  private_key = config.tls_private_key;
}

-- packages net and crypto/tls: listeners, and `%d`.
pub record Sockets : Type 1 where
  pub World : Type 0
  pub Listener : Type 0
  pub TlsListener : Type 0
  pub decimal : ℤ → String
  pub listen : String → World → World × Result Listener
  pub new_listener : Listener → TlsConfig → TlsListener

module _ (S : Sockets) where
  unfoldable pub create_tcp_listener : ℤ → S.World → S.World × Result S.Listener
  create_tcp_listener port world =
      let (world', opened) = S.listen (":" <> S.decimal port) world in
      (world', context "failed to listen on port" opened)

  unfoldable pub create_tls_listener : Certificate → S.Listener → S.TlsListener
  unfolding get_manager_tls_config
  create_tls_listener cert listener = S.new_listener listener (get_manager_tls_config cert)

  -- What `NewApp` reads of its configuration. The stores, which it makes itself, are an argument of
  -- it, with the scheduler.
  pub record AppConfigs : Type 0 where
    pub manager_configs : ManagerConfig
    pub worker_connection_listener : S.Listener
    pub manager_server_api_listener : S.Listener

  -- The logger is left out, and of the API the token stands for it.
  pub record App (P : Parts) : Type 0 where
    pub manager : Manager P
    pub auth_token : String
    pub worker_connection_tls_listener : S.TlsListener
    pub control_connection_tls_listener : S.TlsListener
    pub manager_configs : ManagerConfig

  -- `created` is what `CreatePersistentStateStores` returned, or `CreateInMemoryStores`.
  unfoldable pub new_app :
      (P : Parts)
      → AppConfigs
      → P.scheduler.State
      → Result (StateStores P.stores)
      → P.net.World
      → Result (App P)
  unfolding new create_tls_listener
  new_app P configs scheduler created world = do
    state_stores ← context "failed to create DBs providing persistent storage for manager" created
    new_manager ← context "failed to initialize manager" (new P scheduler state_stores world)
    ok (record {
      manager = new_manager;
      auth_token = configs.manager_configs.auth_token;
      worker_connection_tls_listener =
          create_tls_listener (certificate_of configs.manager_configs)
            configs.worker_connection_listener;
      control_connection_tls_listener =
          create_tls_listener (certificate_of configs.manager_configs)
            configs.manager_server_api_listener;
      manager_configs = configs.manager_configs;
    })
