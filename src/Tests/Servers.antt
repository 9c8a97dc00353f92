-- ===== src/Tests/Servers.antt =====
-- A first start of the manager by its command.
use netbula.Base.{String, [], ◌∷◌}
use netbula.Base.Dict.{Dict}
use netbula.Base.Result.{ok}
use netbula.Manager.Boot.App.{TlsConfig, Sockets, App, certificate_of}
use netbula.Tests.Orders.{manager_parts, manager}
use netbula.Tests.Starts.{token, manager_config}

abbrev sockets : Sockets
sockets = record {
  World = Unit;
  Listener = String;
  TlsListener = String × TlsConfig;
  decimal = λ z. "80";
  listen = λ address w. (w, ok address);
  new_listener = λ l c. (l, c);
}

abbrev app : App sockets manager_parts
app = record {
  manager = record manager { pending = [] };
  auth_token = token;
  worker_connection_tls_listener =
      (":80", record { certificates = certificate_of manager_config ∷ [] });
  control_connection_tls_listener =
      (":80", record { certificates = certificate_of manager_config ∷ [] });
  manager_configs = manager_config;
}

abbrev kept : Dict String String
kept = (".manager_config.json", token) ∷ []
