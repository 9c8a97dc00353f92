-- ===== src/Configs.antt =====
-- internal/configs: the configurations of the three programs and the files that hold them. The file
-- system is a parameter, encoding/json a codec; a file's contents are a text.
pub mod Setup
use netbula.Base.{ℕ, String, ◌≡◌, Option, none, some, List, ◌==◌, string_eq, if◌then◌else◌}
use netbula.Base.Int.{ℤ}
use netbula.Base.Result.{Err, Result, ok, err, wrap, context, ◌>>=◌}
use netbula.Store.Persistent.{Codec}
use netbula.Security.{Certificate}

pub record Files : Type 1 where
  pub Fs : Type 0
  pub join : String → String → String
  pub read_file : String → Fs → Result String
  pub mkdir_all : String → ℕ → Fs → Fs × Option Err
  pub write_file : String → String → ℕ → Fs → Fs × Option Err

-- A file that was written is read as it was written.
pub record IsFiles (F : Files) : Type 0 where
  pub read_file-write_file :
      (path contents : String) (mode : ℕ) (fs fs' : F.Fs)
      → F.write_file path contents mode fs ≡ (fs', none)
      → F.read_file path fs' ≡ ok contents

-- 0755 and 0644
abbrev pub standard_permission : ℕ
standard_permission = 493

abbrev pub read_write_permission : ℕ
read_write_permission = 420

pub record ManagerConfig : Type 0 where
  pub worker_connection_port : ℤ
  pub server_api_port : ℤ
  pub tls_certificate_in_bytes : List (List ℕ)
  pub tls_private_key : List ℕ
  pub auth_token : String
  pub cert_fingerprint : String

unfoldable pub new_manager_config : ℤ → ℤ → Certificate → String → String → ManagerConfig
new_manager_config worker_connection_port server_api_port tls_certificate auth_token cert_hash =
    record {
      worker_connection_port = worker_connection_port;
      server_api_port = server_api_port;
      tls_certificate_in_bytes = tls_certificate.certificate;
      tls_private_key = tls_certificate.private_key;
      auth_token = auth_token;
      cert_fingerprint = cert_hash;
    }

pub record WorkerConfig : Type 0 where
  pub worker_name : String
  pub uuid : ℕ
  pub manager_address : String
  pub manager_cert_fingerprint : String

unfoldable pub new_worker_config : ℕ → String → String → String → WorkerConfig
new_worker_config uuid worker_name manager_address manager_cert_fingerprint = record {
  worker_name = worker_name;
  uuid = uuid;
  manager_address = manager_address;
  manager_cert_fingerprint = manager_cert_fingerprint;
}

pub record ControlConfig : Type 0 where
  pub manager_server_address : String
  pub control_token : String
  pub manager_cert_fingerprint : String

unfoldable pub new_control_config : String → String → String → ControlConfig
new_control_config manager_address token manager_cert_fingerprint = record {
  manager_server_address = manager_address;
  control_token = token;
  manager_cert_fingerprint = manager_cert_fingerprint;
}

-- `if flag != "" { config.Field = flag }`
abbrev pub override : String → String → String
override flag stored = if flag == "" then stored else flag

module _ (F : Files) {V : Type 0} (C : Codec V) where
  unfoldable pub store_config_to_file : String → String → V → F.Fs → F.Fs × Option Err
  store_config_to_file dir_path file_name config fs = elim (C.marshal config) [
    | err e ↦ (fs, some (wrap "failed to unmarshal config file" e))
    | ok encoded ↦
        let (made, e) = F.mkdir_all dir_path standard_permission fs in
        elim e [
          | some e ↦ (
            made,
            some (wrap "failed to create directory recursively on the path to config file" e),
          )
          | none ↦
              let (written, e) =
                F.write_file (F.join dir_path file_name) encoded read_write_permission made in
              elim e [
                | some e ↦ (written, some (wrap "failed to create file and writing to it" e))
                | none ↦ (written, none)
              ]
        ]
  ]

  unfoldable pub get_config_from_file : String → String → F.Fs → Result V
  get_config_from_file dir_path file_name fs = do
    read ← context "failed to read data from file" (F.read_file (F.join dir_path file_name) fs)
    let (config, e) = C.unmarshal read
    elim e [ some e ↦ err (wrap "failed to unmarshal data read from file" e) | none ↦ ok config ]
