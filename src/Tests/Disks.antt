-- ===== src/Tests/Disks.antt =====
-- Concrete instances of the file system, the codecs of the configurations and the cryptography.
use netbula.Base.{
  ℕ, zero, suc, String, ◌≡◌, refl, Bool, true, false, ◌&&◌, none, some, List, [], ◌∷◌, arith, ◌==◌,
  string_eq, nat_eq, ==-eq, ==-refl, ◌<>◌, if◌then◌else◌, length, ap,
}
use netbula.Base.Int.{ℤ, pos, negsuc}
use netbula.Base.Dict.{Dict, lookup, insert, lookup-insert}
use netbula.Base.Result.{ok, err, fresh}
use netbula.Store.Persistent.{Codec, IsCodec}
use netbula.Security.{Crypto, IsCrypto}
use netbula.Configs.{Files, IsFiles, ManagerConfig, WorkerConfig, ControlConfig}

-- The files under their paths.
abbrev pub disk : Files
disk = record {
  Fs = Dict String String;
  join = λ dir file. dir <> file;
  read_file = λ path fs. elim (lookup path fs) [
    | none ↦ err (fresh "no such file or directory")
    | some contents ↦ ok contents
  ];
  mkdir_all = λ path mode fs. (fs, none);
  write_file = λ path contents mode fs. (insert path contents fs, none);
}

pub disk-IsFiles : IsFiles disk
disk-IsFiles = record {
  read_file-write_file = λ path contents mode fs fs' h.
      ground (arith, lookup-insert path path contents fs, ==-refl path);
}

-- These codecs encode the one text that the runs vary and refuse what they could not give back.
abbrev pub control_json : Codec ControlConfig
control_json = record {
  marshal = λ c.
      if (c.control_token == "t") && (c.manager_cert_fingerprint == "f")
      then ok c.manager_server_address
      else err (fresh "unsupported value");
  unmarshal = λ b. (
    record { manager_server_address = b; control_token = "t"; manager_cert_fingerprint = "f" },
    none,
  );
}

pub control_json-IsCodec : IsCodec control_json
control_json-IsCodec = record {
  unmarshal-marshal =
      λ c b h. ground (arith, ==-eq c.control_token "t", ==-eq c.manager_cert_fingerprint "f");
}

abbrev pub worker_json : Codec WorkerConfig
worker_json = record {
  marshal = λ c.
      if (c.worker_name == "east") && ((c.manager_cert_fingerprint == "f") && (c.uuid == 5))
      then ok c.manager_address
      else err (fresh "unsupported value");
  unmarshal = λ b. (
    record { worker_name = "east"; uuid = 5; manager_address = b; manager_cert_fingerprint = "f" },
    none,
  );
}

pub worker_json-IsCodec : IsCodec worker_json
worker_json-IsCodec = record {
  unmarshal-marshal = λ c b h.
      ground
        (arith, ==-eq c.worker_name "east", ==-eq c.manager_cert_fingerprint "f", ==-eq c.uuid 5);
}

abbrev pub is_port : ℕ → ℤ → Bool
is_port n (pos k) = k == n
is_port n (negsuc k) = false

pub is_port-eq : (n : ℕ) (z : ℤ) → is_port n z ≡ true → z ≡ pos n
is_port-eq n (pos k) h = ap pos (==-eq k n h)
is_port-eq n (negsuc k) h = absurd (ground arith)

-- One certificate without bytes, as `hollow` makes it.
abbrev is_hollow : List (List ℕ) → Bool
is_hollow ([] ∷ []) = true
is_hollow _ = false

is_hollow-eq : (c : List (List ℕ)) → is_hollow c ≡ true → c ≡ [] ∷ []
is_hollow-eq ([] ∷ []) h = refl
is_hollow-eq [] h = absurd (ground arith)
is_hollow-eq ((b ∷ bs) ∷ cs) h = absurd (ground arith)
is_hollow-eq ([] ∷ (c ∷ cs)) h = absurd (ground arith)

abbrev is_nil : List ℕ → Bool
is_nil [] = true
is_nil (b ∷ bs) = false

is_nil-eq : (bs : List ℕ) → is_nil bs ≡ true → bs ≡ []
is_nil-eq [] h = refl
is_nil-eq (b ∷ bs) h = absurd (ground arith)

abbrev pub manager_json : Codec ManagerConfig
manager_json = record {
  marshal = λ c.
      if (is_port 80 c.worker_connection_port && is_port 81 c.server_api_port)
        && (is_hollow c.tls_certificate_in_bytes
            && (is_nil c.tls_private_key && (c.cert_fingerprint == "")))
      then ok c.auth_token
      else err (fresh "unsupported value");
  unmarshal = λ b. (
    record {
      worker_connection_port = pos 80;
      server_api_port = pos 81;
      tls_certificate_in_bytes = [] ∷ [];
      tls_private_key = [];
      auth_token = b;
      cert_fingerprint = "";
    },
    none,
  );
}

pub manager_json-IsCodec : IsCodec manager_json
manager_json-IsCodec = record {
  unmarshal-marshal = λ c b h. ground (
    arith,
    is_port-eq 80 c.worker_connection_port,
    is_port-eq 81 c.server_api_port,
    is_hollow-eq c.tls_certificate_in_bytes,
    is_nil-eq c.tls_private_key,
    ==-eq c.cert_fingerprint "",
  );
}

abbrev pub zeros : ℕ → List ℕ
zeros zero = []
zeros (suc n) = 0 ∷ zeros n

zeros-length : (n : ℕ) → length (zeros n) ≡ n
zeros-length zero = refl
zeros-length (suc n) = ap suc (zeros-length n)

-- Keys, certificates and hashes without bytes; all randomness is zero.
abbrev pub hollow : Crypto
hollow = record {
  World = Unit;
  now = λ w. (w, 0);
  unix = λ t. t;
  add_date = λ t years months days. t;
  random_bytes = λ n w. (w, zeros n);
  generate_key = λ w. (w, [], []);
  create_certificate = λ template public private w. (w, ok []);
  sum256 = λ b. [];
}

pub hollow-IsCrypto : IsCrypto hollow
hollow-IsCrypto = record { random_bytes-length = λ n w. zeros-length n; sum256-All = λ b. tt }
