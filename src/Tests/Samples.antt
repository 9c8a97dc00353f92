-- ===== src/Tests/Samples.antt =====
-- Concrete instances of what the program does not implement: ids, floats, queues, a database, JSON,
-- Docker and the network.
use Prim.Native.String.{String}
use text.Mathlib.Text.{◌==◌ as str_eq}
use netbula.Base.{
  ℕ, zero, suc, ◌+◌, ◌-◌, ◌*◌, ◌/◌, ◌^◌, ◌≡◌, refl, ap, subst, false, Option, none, some, List, [],
  ◌∷◌, ◌++◌, arith, ltb, length, Distinct, ◌==◌, string_eq, if◌then◌else◌,
}
use netbula.Base.Int.{pos, negsuc}
use netbula.Base.Dict.{Dict, lookup, insert, keys, lookup-insert, insert-Distinct}
use netbula.Base.Result.{Err, fresh, Result, ok, err}
use netbula.Task.{State, scheduled, Task, TaskEvent}
use netbula.Task.Text.{StringJson, IsStringJson}
use netbula.Store.Memory.{memory_store, put, get}
use netbula.Store.Persistent.{Bolt, IsBolt, Codec, IsCodec}
use netbula.Uuids.{Uuids, IsUuids}
use netbula.Floats.{Floats, IsOrdered}
use netbula.Node.{Node}
use netbula.Queue.{Queue, IsFifo, head?, tail}
use netbula.Docker.{Client}
use netbula.Manager.State.{Stores, StateStores}
use netbula.Manager.Cluster.{Net}
use netbula.Store.{Reliable}

-- An id is written in unary.
abbrev pub ticks : ℕ → String
ticks zero = "#"
ticks (suc n) = String.◌∷◌ "u" (ticks n)

abbrev pub size : String → ℕ
size String.[] = 0
size (String.◌∷◌ c s) = suc (size s)

abbrev pub read : ℕ → Result ℕ
read zero = err (fresh "invalid UUID length")
read (suc n) = ok n

size-ticks : (n : ℕ) → size (ticks n) ≡ suc n
size-ticks zero = refl
size-ticks (suc n) = ap suc (size-ticks n)

abbrev pub unary : Uuids
unary = record { to_string = ticks; parse = λ s. read (size s) }

pub unary-IsUuids : IsUuids unary
unary-IsUuids = record {
  parse-to_string = λ u. ap read (size-ticks u);
  to_string-ne = λ u e. cc (size-ticks u, e);
}

abbrev pub plain : Floats
plain = record {
  literal = λ s.
      if str_eq s "0.1" then 1 else if str_eq s "0.01" then 0 else if str_eq s "1" then 1 else 10;
  add = λ a b. a + b;
  sub = λ a b. a - b;
  mul = λ a b. a * b;
  div = λ a b. a / b;
  pow = λ a b. a ^ b;
  lt = ltb;
  is_nan = λ a. false;
  of_int = λ z. elim z [ pos n ↦ n | negsuc n ↦ 0 ];
  to_int = pos;
}

pub plain-IsOrdered : IsOrdered plain
plain-IsOrdered = record {
  lt_irrefl = λ a. ground arith;
  lt_asymm = λ a b h. ground arith;
  lt_neg_trans = λ a b c n h k. ground arith;
  lt_tenth = refl;
}

abbrev pub fifo : (A : Type 0) → Queue A
fifo A = record {
  State = List A;
  new = [];
  enqueue = λ a q. q ++ a ∷ [];
  dequeue = λ q. (head? q, tail q);
  len = length;
  contents = λ q. q;
}

pub fifo-IsFifo : (A : Type 0) → IsFifo (fifo A)
fifo-IsFifo A = record {
  contents-new = refl;
  contents-enqueue = λ a q. refl;
  dequeue-head? = λ q. refl;
  dequeue-tail = λ q. refl;
  len-length = λ q. refl;
}

-- A bucket that holds each key once.
abbrev pub Bucket : Type 0
Bucket = (d : Dict String String) × Distinct (keys d)

abbrev pub bucket : (view_error : Option Err) → Bolt
bucket e = record {
  Db = Bucket;
  view_error = λ db. e;
  update_error = λ db. e;
  bucket_put = λ k b db. ok (insert k b db.0, insert-Distinct k b db.0 db.1);
  bucket_get = λ k db. lookup k db.0;
  for_each = λ db. db.0;
  key_n = λ db. length db.0;
  create_bucket_if_not_exists = ok;
  close = ok;
}

contents : Result Bucket → Dict String String
contents (ok db) = db.0
contents (err e) = []

pub bucket-IsBolt : (e : Option Err) → IsBolt (bucket e)
unfolding contents
bucket-IsBolt e = record {
  get-put = λ k j b db db' h. put_get k j b db db' h;
  put-view_error = λ k b db db' h. refl;
  get-for_each = λ k db. refl;
  for_each-Distinct = λ db. db.1;
  key_n-length = λ db. refl;
}
  where
    put_get :
        (k j b : String) (db db' : Bucket)
        → ◌≡◌ {A = Result Bucket} (ok (insert k b db.0, insert-Distinct k b db.0 db.1)) (ok db')
        → lookup j db'.0 ≡ (if k == j then some b else lookup j db.0)
    put_get k j b db db' h =
        subst (λ d. lookup j d ≡ (if k == j then some b else lookup j db.0)) (ap contents h)
          (lookup-insert j k b db.0)

abbrev pub verbatim : Codec String
verbatim = record { marshal = ok; unmarshal = λ b. (b, none) }

pub verbatim-IsCodec : IsCodec verbatim
verbatim-IsCodec = record { unmarshal-marshal = λ v b h. ground arith }

abbrev pub bare : StringJson
bare = record { marshal = ok; unmarshal = ok }

pub bare-IsStringJson : IsStringJson bare
bare-IsStringJson = record { unmarshal-marshal = λ s b h. ground arith }

abbrev pub memory : Stores
memory = record {
  tasks = memory_store Task;
  events = memory_store TaskEvent;
  task_workers = memory_store ℕ;
  worker_names = memory_store String;
}

abbrev pub empty_stores : StateStores memory
empty_stores = record { task_db = []; event_db = []; task_worker_db = []; worker_name_db = [] }

abbrev pub job : State → Task
job s = record {
  id = 3;
  name = "job";
  state = s;
  image = "docker.io/library/alpine";
  cpu = 1;
  memory = pos 64;
  disk = pos 8;
  exposed_ports = "";
  port_bindings = "";
  restart_policy = "always";
  start_time = 0;
  finish_time = 0;
  container_id = "c1";
}

abbrev pub node : ℕ → ℕ → Node
node uuid disk = record {
  name = "host";
  cores = pos 2;
  cpu_average_percent = 5;
  cpu_average_load = 1;
  memory = pos 16;
  memory_allocated_percent = 20;
  disk = pos disk;
  disk_allocated_percent = 30;
  role = "";
  task_count = pos 0;
  worker_uuid = uuid;
}

-- A Docker client whose image pull ends like this; everything else succeeds.
abbrev pub docker : Option Err → Client
docker e = record {
  Daemon = Unit;
  image_pull = λ image d. (d, e);
  container_create = λ options d. (d, "c1", none);
  container_start = λ id d. (d, none);
  container_logs = λ id d. (d, none);
  container_stop = λ id d. (d, none);
  container_remove = λ id options d. (d, none);
  container_inspect = λ id d. ok (record { status = "exited"; ports = "80" });
}

-- A network on which no request is answered.
abbrev pub silent : Net
silent = record {
  Client = Unit;
  World = Unit;
  request = λ client method url body world. (world, err (fresh "connection refused"));
  arrival = λ world ids. ids;
  decode_stats = λ body. err (fresh "unexpected end of JSON input");
  decode_tasks = λ body. ok [];
  decode_task = λ body. ok (job scheduled);
  decode_error = ok;
  encode_event = λ te. ok "event";
}

pub memory_store-Reliable : (V : Type 0) → Reliable (memory_store V)
unfolding put get
memory_store-Reliable V = record { writes = λ k v s. (insert k v s, refl); reads = λ k s. refl }
