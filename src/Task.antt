-- ===== src/Task.antt =====
-- internal/task/task.go: the states of a task, the transition table, the records that travel
-- between control program, manager and worker, and the container configuration of a task.
pub mod Text
pub mod Lifecycle
use netbula.Base.{ℕ, String, Bool, true, false, List, [], ◌∷◌, ◌||◌}
use netbula.Base.Int.{ℤ}

pub data State : Type 0 where
  pending scheduled running completed failed : State

-- `==` on states.
abbrev pub state_eq : State → State → Bool
state_eq pending pending = true
state_eq scheduled scheduled = true
state_eq running running = true
state_eq completed completed = true
state_eq failed failed = true
state_eq _ _ = false

-- `stateTransitionMap`
abbrev pub state_transition_map : State → List State
state_transition_map pending = scheduled ∷ []
state_transition_map scheduled = scheduled ∷ running ∷ failed ∷ []
state_transition_map running = running ∷ completed ∷ failed ∷ []
state_transition_map completed = []
state_transition_map failed = []

-- The loop of `contains`.
abbrev pub contains : List State → State → Bool
contains [] state = false
contains (s ∷ states) state = state_eq s state || contains states state

unfoldable pub valid_state_transition : State → State → Bool
valid_state_transition src dest = contains (state_transition_map src) dest

-- A `uuid.UUID`, sixteen bytes, is the number that they spell; `float64` is its 64-bit pattern; a
-- `time.Time` and the port maps of the container library are carried through unread.
pub record Task : Type 0 where
  pub id : ℕ
  pub name : String
  pub state : State
  pub image : String
  pub cpu : ℕ
  pub memory : ℤ
  pub disk : ℤ
  pub exposed_ports : String
  pub port_bindings : String
  pub restart_policy : String
  pub start_time : ℕ
  pub finish_time : ℕ
  pub container_id : String

pub record TaskEvent : Type 0 where
  pub id : ℕ
  pub target_state : State
  pub timestamp : ℕ
  pub task : Task

-- internal/docker/docker.go, `Config`.
pub record DockerConfig : Type 0 where
  pub name : String
  pub attach_stdin : Bool
  pub attach_stdout : Bool
  pub attach_stderr : Bool
  pub exposed_ports : String
  pub cmd : List String
  pub image : String
  pub cpu : ℕ
  pub memory : ℤ
  pub disk : ℤ
  pub env : List String
  pub restart_policy : String

unfoldable pub new_config : Task → DockerConfig
new_config t = record {
  name = t.name;
  attach_stdin = true;
  attach_stdout = true;
  attach_stderr = true;
  exposed_ports = t.exposed_ports;
  cmd = [];
  image = t.image;
  cpu = t.cpu;
  memory = t.memory;
  disk = t.disk;
  env = [];
  restart_policy = t.restart_policy;
}

-- `t.State == Scheduled || t.State == Running`, the test by which the manager counts tasks.
abbrev pub is_active : State → Bool
is_active scheduled = true
is_active running = true
is_active _ = false
