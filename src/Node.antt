-- ===== src/Node.antt =====
-- internal/node/node.go and the statistics of internal/networks/types/workerstats.go.
use netbula.Base.{ℕ, ◌^◌, ◌-◌, String, Option, none, some, List, [], ◌∷◌, ltb, if◌then◌else◌}
use netbula.Base.Int.{ℤ, pos, negsuc}
use netbula.Base.Result.{Result, ok, ◌>>=◌, context}

pub record Node : Type 0 where
  pub name : String
  pub cores : ℤ
  pub cpu_average_percent : ℕ
  pub cpu_average_load : ℕ
  pub memory : ℤ
  pub memory_allocated_percent : ℕ
  pub disk : ℤ
  pub disk_allocated_percent : ℕ
  pub role : String
  pub task_count : ℤ
  pub worker_uuid : ℕ

pub record Stats : Type 0 where
  pub mem_total_in_bytes : ℕ
  pub mem_used_percent : ℕ
  pub disk_total_in_bytes : ℕ
  pub disk_used_percent : ℕ
  pub cpu_count : ℤ
  pub cpu_percents : List ℕ
  pub load_avg : ℕ

-- gopsutil's answers on the machine: memory and disk with their total and the percentage in use, the
-- processors' percentages, the load over a minute, and the number of processors.
pub record Machine : Type 0 where
  pub virtual_memory : Result (ℕ × ℕ)
  pub usage : Result (ℕ × ℕ)
  pub percent : Result (List ℕ)
  pub avg : Result ℕ
  pub counts : ℤ

unfoldable pub get_stats : Machine → Result Stats
get_stats machine = do
  (mem_total, mem_used) ← context "Failed to get memory stats" machine.virtual_memory
  (disk_total, disk_used) ← context "Failed to get disk stats" machine.usage
  cpu_percents ← context "Failed to get cpu percent stats" machine.percent
  load_avg ← context "Failed to get cpu load average stats" machine.avg
  ok (record {
    mem_total_in_bytes = mem_total;
    mem_used_percent = mem_used;
    disk_total_in_bytes = disk_total;
    disk_used_percent = disk_used;
    cpu_count = machine.counts;
    cpu_percents = cpu_percents;
    load_avg = load_avg;
  })

-- `int(x)` of a uint64 reads the same bits as a signed number.
abbrev pub int_of_uint64 : ℕ → ℤ
int_of_uint64 n = if ltb n (2 ^ 63) then pos n else negsuc (2 ^ 64 - n - 1)

-- `none` is the panic at `stats.CpuPercents[0]` of an empty slice.
unfoldable pub stats_to_node : ℕ → String → ℤ → Stats → Option Node
stats_to_node worker_uuid worker_name worker_task_count stats = elim stats.cpu_percents [
  | [] ↦ none
  | percent ∷ _ ↦ some (record {
    name = worker_name;
    cores = stats.cpu_count;
    cpu_average_percent = percent;
    cpu_average_load = stats.load_avg;
    memory = int_of_uint64 stats.mem_total_in_bytes;
    memory_allocated_percent = stats.mem_used_percent;
    disk = int_of_uint64 stats.disk_total_in_bytes;
    disk_allocated_percent = stats.disk_used_percent;
    role = "";
    task_count = worker_task_count;
    worker_uuid = worker_uuid;
  })
]
