-- ===== src/Cmd/Control.antt =====
-- cmd/control.go and cmd/control: the commands of the control program but for `run`. `none` is the end by
-- `log.Fatal` or `log.Panic`, or cobra's refusal of the arguments.
use netbula.Base.{ℕ, ◌+◌, String, ◌<>◌, Bool, Option, none, some, List, [], ◌∷◌, if◌then◌else◌}
use netbula.Base.Int.{ℤ, pos}
use netbula.Store.Persistent.{Codec}
use netbula.Uuids.{Uuids}
use netbula.Floats.{Floats}
use netbula.Task.{Task}
use netbula.Task.Text.{to_int, state_to_string}
use netbula.Node.{Node}
use netbula.Configs.{Files, ControlConfig}
use netbula.Control.Boot.{run}
use netbula.Control.Api.{Https, get_tasks, stop_task, get_nodes}

-- package fmt at `%d` and `%.2f`, `IsZero` of a time, and go-units' `HumanDuration` of the time
-- from the second argument to the first.
pub record Format : Type 0 where
  pub decimal : ℤ → String
  pub two_places : ℕ → String
  pub is_zero : ℕ → Bool
  pub human_duration : ℕ → ℕ → String

abbrev pub gigabyte_in_bytes : ℤ
gigabyte_in_bytes = pos 1073741824

-- The rows that are written to the tabwriter, as their cells.
abbrev pub Table : Type 0
Table = List (List String)

module _ (U : Uuids) (T : Format) where
  -- The clock is read once for a row, and twice for a task without a start time; `n` counts the
  -- readings.
  unfoldable pub created : (ℕ → ℕ) → ℕ → Task → ℕ × String
  created clock n t =
      if T.is_zero t.start_time
      then (n + 2, T.human_duration (clock n) (clock (n + 1)) <> " ago")
      else (n + 1, T.human_duration (clock n) t.start_time <> " ago")

  unfoldable pub task_row : (ℕ → ℕ) → ℕ → Task → ℕ × List String
  unfolding created state_to_string
  task_row clock n t =
      let (n', start_time) = created clock n t in
      let task_state = state_to_string (to_int t.state) in
      (n', U.to_string t.id ∷ t.name ∷ start_time ∷ task_state ∷ t.name ∷ t.image ∷ [])

  unfoldable pub task_rows : (ℕ → ℕ) → ℕ → List Task → Table
  unfolding task_row
  task_rows clock n [] = []
  task_rows clock n (t ∷ tasks) =
      let (n', row) = task_row clock n t in row ∷ task_rows clock n' tasks

  unfoldable pub print_tasks_in_table : (ℕ → ℕ) → List Task → Table
  unfolding task_rows
  print_tasks_in_table clock tasks =
      ("ID" ∷ "NAME" ∷ "CREATED" ∷ "STATE" ∷ "CONTAINER NAME" ∷ "IMAGE" ∷ [])
      ∷ task_rows clock 0 tasks

  module _ (L : Floats) where
    abbrev in_gigabytes : ℤ → String
    in_gigabytes bytes = T.two_places (L.div (L.of_int bytes) (L.of_int gigabyte_in_bytes))

    unfoldable pub node_rows : List Node → Table
    node_rows [] = []
    node_rows (n ∷ nodes) =
        (n.name
          ∷ U.to_string n.worker_uuid
          ∷ in_gigabytes n.memory
          ∷ in_gigabytes n.disk
          ∷ T.decimal n.cores
          ∷ T.decimal n.task_count
          ∷ [])
        ∷ node_rows nodes

    unfoldable pub print_nodes_in_table : List Node → Table
    unfolding node_rows
    print_nodes_in_table nodes =
        ("NAME" ∷ "WORKER ID" ∷ "MEMORY (GB)" ∷ "DISK (GB)" ∷ "CORES" ∷ "TASKS" ∷ [])
        ∷ node_rows nodes

-- The lines that `control` prints.
abbrev pub settings_lines : ControlConfig → List String
settings_lines config =
    ("Current target manager address: " <> config.manager_server_address)
    ∷ ("Current connection token with manager server: " <> config.control_token)
    ∷ ("Current stored fingerprint of the manager server's TLS certificate: "
        <> config.manager_cert_fingerprint)
    ∷ []

module _ (F : Files) (J : Codec ControlConfig) where
  unfoldable pub control_cmd : String → String → String → F.Fs → Option (F.Fs × List String)
  unfolding run
  control_cmd manager_address token fingerprint fs =
      elim (run F J manager_address token fingerprint fs) [
        | none ↦ none
        | some (fs', config) ↦ some (fs', settings_lines config)
      ]

  module _ (H : Https) where
    unfoldable pub stop_cmd : List String → F.Fs → H.World → Option (F.Fs × H.World)
    unfolding run
    stop_cmd [] fs world = none
    stop_cmd (task_id ∷ args) fs world = elim (run F J "" "" "" fs) [
      | none ↦ none
      | some (fs', stored) ↦
          elim (stop_task H stored.manager_server_address stored.control_token
            stored.manager_cert_fingerprint task_id world) [
              | none ↦ none
              | some world' ↦ some (fs', world')
            ]
    ]

    unfoldable pub tasks_cmd :
        Uuids → Format → (ℕ → ℕ) → F.Fs → H.World → Option (F.Fs × H.World × Table)
    unfolding run print_tasks_in_table
    tasks_cmd U T clock fs world = elim (run F J "" "" "" fs) [
      | none ↦ none
      | some (fs', stored) ↦
          elim (get_tasks H stored.manager_server_address stored.control_token
            stored.manager_cert_fingerprint world) [
              | none ↦ none
              | some (world', tasks) ↦ some (fs', world', print_tasks_in_table U T clock tasks)
            ]
    ]

    unfoldable pub nodes_cmd :
        Uuids → Format → Floats → F.Fs → H.World → Option (F.Fs × H.World × Table)
    unfolding run print_nodes_in_table
    nodes_cmd U T L fs world = elim (run F J "" "" "" fs) [
      | none ↦ none
      | some (fs', stored) ↦
          elim (get_nodes H stored.manager_server_address stored.control_token
            stored.manager_cert_fingerprint world) [
              | none ↦ none
              | some (world', nodes) ↦ some (fs', world', print_nodes_in_table U T L nodes)
            ]
    ]
