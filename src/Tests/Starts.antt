-- ===== src/Tests/Starts.antt =====
-- Runs of the three programs' starts.
use netbula.Base.{Distinct, String, ◌≡◌, refl, ◌⊎◌, none, some, [], ◌∷◌, string_eq, nat_eq}
use netbula.Base.Int.{pos}
use netbula.Base.Dict.{Dict, keys, lookup, insert}
use netbula.Base.Result.{Result, Err, ok, fresh, wrap}
use netbula.Security.Hex.{size, encode_to_string}
use netbula.Security.{generate_random_token}
use netbula.Security.Pinning.{generate_random_token-size}
use netbula.Configs.{
  ManagerConfig, WorkerConfig, store_config_to_file, get_config_from_file, new_worker_config,
}
use netbula.Worker.Boot.{parse_worker_args, setup_worker_config}
use netbula.Worker.Boot.Setup.{setup_worker_config_first, read_back}
use netbula.Worker.Boot.Launch
use netbula.Worker.Boot.Launch.{persistent_parts, new_worker, run as run_worker}
use netbula.Worker.Boot.Resume.{run_resumed}
use netbula.Worker.{Worker}
use netbula.Task.{running, Task}
use netbula.Store.Persistent.{Codec, new_persistent_store}
use netbula.Tests.Samples.{unary, plain, fifo, fifo-IsFifo, docker, bucket, Bucket, job}
use netbula.Tests.Disks.{
  disk, disk-IsFiles, worker_json, worker_json-IsCodec, zeros, hollow, hollow-IsCrypto,
}

generate_random_token-size_example : size (generate_random_token hollow tt).1 ≡ 64
generate_random_token-size_example = generate_random_token-size hollow hollow-IsCrypto tt

abbrev pub token : String
token = encode_to_string (zeros 32)

abbrev pub manager_config : ManagerConfig
manager_config = record {
  worker_connection_port = pos 80;
  server_api_port = pos 81;
  tls_certificate_in_bytes = [] ∷ [];
  tls_private_key = [];
  auth_token = token;
  cert_fingerprint = "";
}

abbrev no_file : Err
no_file = wrap "failed to read data from file" (fresh "no such file or directory")

setup_worker_config_first_example :
    let outcome =
      setup_worker_config disk worker_json (parse_worker_args ("m:80" ∷ "f" ∷ "east" ∷ [])) 5 [] in
    (outcome ≡ none)
    ⊎ ((◌≡◌ {A = String} "m:80" "")
        × (◌≡◌ {A = String} "f" "")
        × (◌≡◌ {A = String} "east" "")
        × (fs' : Dict String String) × (outcome ≡ some (fs', new_worker_config 5 "" "" "")))
unfolding get_config_from_file lookup
setup_worker_config_first_example =
    setup_worker_config_first disk worker_json "m:80" "f" "east" 5 [] no_file refl

abbrev worker_config : String → WorkerConfig
worker_config address = record {
  worker_name = "east";
  uuid = 5;
  manager_address = address;
  manager_cert_fingerprint = "f";
}

abbrev worker_disk : Dict String String
worker_disk = (".worker_config.json", "m:80") ∷ []

-- JSON that knows one task.
abbrev one_job : Codec Task
one_job = record { marshal = λ t. ok "job"; unmarshal = λ b. (job running, none) }

no_rows-Distinct : Distinct {A = String} (keys {V = String} [])
unfolding keys
no_rows-Distinct = tt

abbrev opened : String → Bucket
opened name = ([], no_rows-Distinct)

abbrev resumed :
    Worker (persistent_parts unary plain (fifo Task) (docker none) (bucket none) one_job)
resumed = record { name = "east"; uuid = 5; queue = []; task_db = opened "east_tasks"; daemon = tt }

resumed-run :
    run_worker unary plain
      (fifo Task)
      (docker none)
      (bucket none)
      one_job
      disk
      worker_json
      "n:80"
      ""
      ""
      8
      worker_disk
      (ok opened)
      tt
    ≡ some ((".worker_config.json", "n:80") ∷ [], resumed)
unfolding netbula.Worker.Boot.Launch.run setup_worker_config get_config_from_file lookup string_eq
    store_config_to_file insert parse_worker_args nat_eq new_persistent_store new_worker
resumed-run = refl

-- The second start is given a new address.
run_resumed_example :
    (resumed.uuid ≡ 5)
    × (resumed.name ≡ "east")
    × (resumed.queue ≡ [])
    × ((db : String → Bucket) × (◌≡◌ {A = Result (String → Bucket)} (ok opened) (ok db))
        × (new_persistent_store (bucket none) (db "east_tasks") ≡ ok resumed.task_db))
    × (read_back disk worker_json ((".worker_config.json", "n:80") ∷ [])
        ≡ ok (worker_config "n:80"))
unfolding get_config_from_file lookup string_eq
run_resumed_example =
    run_resumed unary plain (fifo Task) (docker none) (bucket none) one_job (fifo-IsFifo Task) disk
      disk-IsFiles worker_json worker_json-IsCodec "n:80" "" "" 8 worker_disk
      ((".worker_config.json", "n:80") ∷ []) (worker_config "m:80") (ok opened) tt resumed refl
      resumed-run
