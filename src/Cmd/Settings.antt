-- ===== src/Cmd/Settings.antt =====
-- cmd/control.go: the settings of the control program, all given at once.
use netbula.Base.{String, ◌≡◌, ◌≢◌, refl, none, some, arith, ==-ne, string_eq}
use netbula.Base.Result.{Result, ok, err}
use netbula.Store.Persistent.{Codec, IsCodec}
use netbula.Configs.{
  Files, IsFiles, ControlConfig, new_control_config, store_config_to_file, get_config_from_file,
}
use netbula.Configs.Setup.{get_config_from_file-store_config_to_file}
use netbula.Control.Boot.{run, choose_config, control_config_dir_path, control_config_file_name}
use netbula.Cmd.Control.{settings_lines, control_cmd}

-- The settings are stored under the control program's path.
abbrev pub Stores :
    (F : Files) → Codec ControlConfig → String → String → String → F.Fs → F.Fs → Type 0
Stores F J address token fingerprint fs fs' =
    store_config_to_file F J control_config_dir_path control_config_file_name
      (new_control_config address token fingerprint) fs
    ≡ (fs', none)

module _ (F : Files) (law : IsFiles F) (J : Codec ControlConfig) (json : IsCodec J)
    (address token fingerprint : String) (address_ne : address ≢ "") (token_ne : token ≢ "")
    (fingerprint_ne : fingerprint ≢ "") where
  choose_config-all :
      (existing : Result ControlConfig)
      → choose_config F J existing address token fingerprint
        ≡ (new_control_config address token fingerprint)
  unfolding choose_config new_control_config
  choose_config-all (err e) = refl
  choose_config-all (ok config) = ground (
    arith,
    ==-ne address "" address_ne,
    ==-ne token "" token_ne,
    ==-ne fingerprint "" fingerprint_ne,
  )

  run-all :
      (fs fs' : F.Fs)
      → Stores F J address token fingerprint fs fs'
      → run F J address token fingerprint fs
        ≡ some (fs', (new_control_config address token fingerprint))
  unfolding run
  run-all fs fs' stored =
      let existing = get_config_from_file F J control_config_dir_path control_config_file_name fs in
      ground (arith, choose_config-all existing, ==-ne address "" address_ne)

  pub run-none :
      (fs fs' : F.Fs)
      → Stores F J address token fingerprint fs fs'
      → run F J "" "" "" fs' ≡ some (fs', (new_control_config address token fingerprint))
  unfolding run
  run-none fs fs' stored = ground (
    arith,
    get_config_from_file-store_config_to_file F law J json control_config_dir_path
        control_config_file_name (new_control_config address token fingerprint) fs fs' stored,
    string_eq.dec "" "",
  )

  pub control_cmd-all :
      (fs fs' : F.Fs)
      → Stores F J address token fingerprint fs fs'
      → control_cmd F J address token fingerprint fs
        ≡ some (fs', settings_lines (new_control_config address token fingerprint))
  unfolding control_cmd
  control_cmd-all fs fs' stored = ground (arith, run-all fs fs' stored)
