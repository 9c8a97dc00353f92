-- ===== src/Tests/Commands.antt =====
-- Runs of the commands of the control program.
use netbula.Base.{
  ℕ, ◌+◌, String, ◌≡◌, ◌≢◌, refl, ◌⊎◌, false, ◌&&◌, none, some, List, [], ◌∷◌, arith, ◌==◌, ==-eq,
  ==-refl, string_eq, nat_eq, if◌then◌else◌,
}
use netbula.Base.Dict.{Dict, insert, values}
use netbula.Base.Result.{Err, ok, err, fresh}
use netbula.Store.Persistent.{Codec, IsCodec}
use netbula.Store.Memory.{list}
use netbula.Task.{Task, TaskEvent}
use netbula.Configs.{ControlConfig, new_control_config, store_config_to_file}
use netbula.Manager.State.{get_tasks}
use netbula.Manager.Core.{Manager}
use netbula.Manager.Api.{authenticate}
use netbula.Control.Api.{task_url}
use netbula.Control.Remote.{Stopped}
use netbula.Cmd.Control.{Format, Table, settings_lines, control_cmd, stop_cmd, tasks_cmd}
use netbula.Cmd.Settings.{Stores}
use netbula.Cmd.Orders.{control_cmd-stop_cmd}
use netbula.Cmd.Listing.{Shown, control_cmd-tasks_cmd}
use netbula.Tests.Disks.{disk, disk-IsFiles}
use netbula.Tests.Remotes.{decode, near, near-IsApi, stored}
use netbula.Tests.Orders.{manager_parts}
use netbula.Tests.Samples.{fifo-IsFifo, unary, unary-IsUuids, ticks, memory}

-- The control program's file with the address; the codec refuses what it could not give back.
abbrev secret_json : Codec ControlConfig
secret_json = record {
  marshal = λ c.
      if (c.control_token == "secret") && (c.manager_cert_fingerprint == "f")
      then ok c.manager_server_address
      else err (fresh "unsupported value");
  unmarshal = λ b. (
    record { manager_server_address = b; control_token = "secret"; manager_cert_fingerprint = "f" },
    none,
  );
}

secret_json-IsCodec : IsCodec secret_json
secret_json-IsCodec = record {
  unmarshal-marshal =
      λ c b h. ground (arith, ==-eq c.control_token "secret", ==-eq c.manager_cert_fingerprint "f");
}

abbrev format : Format
format = record {
  decimal = λ z. "0";
  two_places = λ n. "0.00";
  is_zero = λ n. n == 0;
  human_duration = λ now past. "an hour";
}

abbrev clock : ℕ → ℕ
clock n = 7 + n

abbrev files : Dict String String
files = ("task.json", "{request}") ∷ []

abbrev saved : Dict String String
saved = ("task.json", "{request}") ∷ (".control_config.json", "m:81") ∷ []

differ : (s t : String) → (s == t) ≡ false → s ≢ t
differ s t h p = ground (arith, ==-refl s)

address_ne : ◌≢◌ {A = String} "m:81" ""
unfolding string_eq
address_ne = differ "m:81" "" refl

token_ne : ◌≢◌ {A = String} "secret" ""
unfolding string_eq
token_ne = differ "secret" "" refl

fingerprint_ne : ◌≢◌ {A = String} "f" ""
unfolding string_eq
fingerprint_ne = differ "f" "" refl

files-Stores : Stores disk secret_json "m:81" "secret" "f" files saved
unfolding store_config_to_file new_control_config insert string_eq
files-Stores = refl

control_cmd-stop_cmd_example :
    (control_cmd disk secret_json "m:81" "secret" "f" files
      ≡ some (saved, settings_lines (new_control_config "m:81" "secret" "f")))
    × (((stop_cmd disk secret_json near (ticks 3 ∷ []) saved stored ≡ none)
          × (e : Err) × ((near.request "f" "DELETE"
                (task_url "m:81" (ticks 3))
                "secret"
                ""
                stored).1
              ≡ err e))
        ⊎ ((world' : Manager manager_parts) × (stop_cmd disk secret_json near
                (ticks 3 ∷ [])
                saved
                stored
              ≡ some (saved, world'))
            × Stopped manager_parts unary-IsUuids
                (fifo-IsFifo TaskEvent)
                "secret"
                "secret"
                3
                stored
                world'))
control_cmd-stop_cmd_example =
    control_cmd-stop_cmd manager_parts unary-IsUuids (fifo-IsFifo TaskEvent) disk disk-IsFiles
      secret_json secret_json-IsCodec near (λ m. m) "secret" "m:81" decode near-IsApi "secret" "f"
      address_ne token_ne fingerprint_ne files saved files-Stores 3 [] stored

control_cmd-tasks_cmd_example :
    let listed = get_tasks unary memory stored.state in
    (control_cmd disk secret_json "m:81" "secret" "f" files
      ≡ some (saved, settings_lines (new_control_config "m:81" "secret" "f")))
    × (((ts : List Task) × (rows : Table) × (world' : Manager manager_parts) × (◌≡◌ {A = String}
            "secret" "secret")
          × (listed ≡ ok ts)
          × (tasks_cmd disk secret_json near unary format clock saved stored
              ≡ some (
                saved,
                world',
                ("ID" ∷ "NAME" ∷ "CREATED" ∷ "STATE" ∷ "CONTAINER NAME" ∷ "IMAGE" ∷ []) ∷ rows,
              ))
          × Shown unary format clock ts rows
          × (world' ≡ stored))
        ⊎ ((tasks_cmd disk secret_json near unary format clock saved stored ≡ none)
            × ((◌≡◌ {A = String} "secret" "secret") → (e : Err) × (listed ≡ err e))))
unfolding string_eq authenticate nat_eq get_tasks list values
control_cmd-tasks_cmd_example =
    control_cmd-tasks_cmd manager_parts disk disk-IsFiles secret_json secret_json-IsCodec near
      (λ m. m) "secret" "m:81" decode near-IsApi "secret" "f" address_ne token_ne fingerprint_ne
      files saved files-Stores unary format clock stored
      (record { status_code = 200; body = "[job]" }) refl
