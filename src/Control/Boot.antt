-- ===== src/Control/Boot.antt =====
-- internal/app/control/boot.go: the configuration of the control program.
use netbula.Base.{String, Bool, ◌&&◌, Option, none, some, ◌==◌, string_eq, if◌then◌else◌}
use netbula.Base.Result.{Result, ok, err}
use netbula.Store.Persistent.{Codec}
use netbula.Configs.{
  Files, ControlConfig, new_control_config, override, store_config_to_file, get_config_from_file,
}

abbrev pub control_config_dir_path : String
control_config_dir_path = "."

abbrev pub control_config_file_name : String
control_config_file_name = "control_config.json"

module _ (F : Files) (J : Codec ControlConfig) where
  abbrev pub no_flags : String → String → String → Bool
  no_flags address token fingerprint = (address == "") && ((token == "") && (fingerprint == ""))

  unfoldable pub choose_config : Result ControlConfig → String → String → String → ControlConfig
  choose_config (err e) address token fingerprint = new_control_config address token fingerprint
  choose_config (ok config) address token fingerprint = record config {
    manager_server_address = override address config.manager_server_address;
    control_token = override token config.control_token;
    manager_cert_fingerprint = override fingerprint config.manager_cert_fingerprint;
  }

  -- `none` is the `log.Fatal`. The error of `StoreConfigToFile` is dropped.
  unfoldable pub setup_config : String → String → String → F.Fs → Option (F.Fs × ControlConfig)
  unfolding choose_config
  setup_config address token fingerprint fs =
      let existing = get_config_from_file F J control_config_dir_path control_config_file_name fs in
      if no_flags address token fingerprint
      then elim existing [ err e ↦ none | ok config ↦ some (fs, config) ]
      else (let config = choose_config existing address token fingerprint in
          let (fs', e) =
            store_config_to_file F J control_config_dir_path control_config_file_name config fs in
          some (fs', config))

  -- `Run` of the control package.
  unfoldable pub run : String → String → String → F.Fs → Option (F.Fs × ControlConfig)
  unfolding setup_config
  run address token fingerprint fs = setup_config address token fingerprint fs
