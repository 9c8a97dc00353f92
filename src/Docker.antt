-- ===== src/Docker.antt =====
-- internal/docker/docker.go. The Docker daemon and its client library are parameters; the contents
-- of the image stream and of the container's logs, which are copied to the terminal, are left out.
use netbula.Base.{String, Bool, true, false, Option, none, some, List}
use netbula.Base.Int.{ℤ}
use netbula.Base.Result.{Err, Result, ok, err}
use netbula.Floats.{Floats}
use netbula.Task.{DockerConfig}

-- `client.ContainerCreateOptions`, as `Run` fills it.
pub record CreateOptions : Type 0 where
  pub image : String
  pub tty : Bool
  pub env : List String
  pub exposed_ports : String
  pub restart_policy : String
  pub memory : ℤ
  pub nano_cpus : ℤ
  pub publish_all_ports : Bool
  pub name : String

-- The parts of `container.InspectResponse` that the program reads.
pub record Container : Type 0 where
  pub status : String
  pub ports : String

pub record RemoveOptions : Type 0 where
  pub remove_volumes : Bool
  pub remove_links : Bool
  pub force : Bool

pub record Client : Type 1 where
  pub Daemon : Type 0
  pub image_pull : String → Daemon → Daemon × Option Err
  pub container_create : CreateOptions → Daemon → Daemon × String × Option Err
  pub container_start : String → Daemon → Daemon × Option Err
  pub container_logs : String → Daemon → Daemon × Option Err
  pub container_stop : String → Daemon → Daemon × Option Err
  pub container_remove : String → RemoveOptions → Daemon → Daemon × Option Err
  pub container_inspect : String → Daemon → Result Container

pub record DockerResult : Type 0 where
  pub error : Option Err
  pub action : String
  pub container_id : String
  pub result : String

-- `DockerResult{Error: e}`
abbrev pub failure : Option Err → DockerResult
failure e = record { error = e; action = ""; container_id = ""; result = "" }

pub record DockerInspectResponse : Type 0 where
  pub error : Option Err
  pub container : Option Container

module _ (F : Floats) (K : Client) where
  unfoldable pub create_options : DockerConfig → CreateOptions
  create_options config = record {
    image = config.image;
    tty = false;
    env = config.env;
    exposed_ports = config.exposed_ports;
    restart_policy = config.restart_policy;
    memory = config.memory;
    nano_cpus = F.to_int (F.mul config.cpu (F.pow (F.literal "10") (F.literal "9")));
    publish_all_ports = true;
    name = config.name;
  }

  -- The calls after the image is there. The error of `ContainerCreate` is overwritten.
  unfoldable pub start_and_log : K.Daemon → String → K.Daemon × DockerResult
  start_and_log d id =
      let (started, start_err) = K.container_start id d in
      elim start_err [
        | some e ↦ (started, failure (some e))
        | none ↦
            let (logged, log_err) = K.container_logs id started in
            elim log_err [
              | some e ↦ (logged, failure (some e))
              | none ↦ (
                logged,
                record { error = none; action = "start"; container_id = id; result = "success" },
              )
            ]
      ]

  unfoldable pub run : DockerConfig → K.Daemon → K.Daemon × DockerResult
  unfolding start_and_log
  run config d =
      let (pulled, pull_err) = K.image_pull config.image d in
      elim pull_err [
        | some e ↦ (pulled, failure (some e))
        | none ↦
            let (created, id, create_err) = K.container_create (create_options config) pulled in
            start_and_log created id
      ]

module _ (K : Client) where
  unfoldable pub stop : String → K.Daemon → K.Daemon × DockerResult
  stop id d =
      let (stopped, stop_err) = K.container_stop id d in
      elim stop_err [
        | some e ↦ (stopped, failure (some e))
        | none ↦
            let (removed, remove_err) =
              K.container_remove id
                (record { remove_volumes = true; remove_links = false; force = false }) stopped in
            elim remove_err [
              | some e ↦ (removed, failure (some e))
              | none ↦ (
                removed,
                record { error = none; action = "stop"; container_id = id; result = "success" },
              )
            ]
      ]

  unfoldable pub inspect : String → K.Daemon → DockerInspectResponse
  inspect container_id d = elim (K.container_inspect container_id d) [
    | err e ↦ record { error = some e; container = none }
    | ok c ↦ record { error = none; container = some c }
  ]
