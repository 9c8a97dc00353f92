-- ===== src/Tests/Fleets.antt =====
-- Runs of the manager with workers behind its network.
use Prim.Native.String.{String}
use Prim.Native.String.append
use netbula.Base.{
  ℕ, ◌≡◌, ◌≢◌, refl, ap, contains, ◌∙◌, Bool, true, false, ◌&&◌, none, some, [], ◌∷◌, ◌<>◌, arith,
  ◌==◌, string_eq, nat_eq, ==-eq, ==-refl, ==-ne, if◌then◌else◌,
}
use netbula.Base.Dict.{insert, lookup, get_or}
use netbula.Base.Result.{Result, ok, err, fresh}
use netbula.Task.{State, scheduled, running, completed, state_eq, Task, TaskEvent}
use netbula.Worker
use netbula.Worker.{Worker}
use netbula.Worker.Handlers.{start_task_handler, stop_task_handler}
use netbula.Manager.Cluster.{Net, Response, send_task, stop_task}
use netbula.Fleet.{Fleet, IsServing, Connected, status_of}
use netbula.Store.Memory.{memory_store-IsLawful, put, get}
use netbula.Scheduler.Epvm.{epvm}
use netbula.Manager.Core
use netbula.Manager.Core.{Manager, send_work}
use netbula.Manager.State.{get_task, get_assigned_worker, update_task_event, assign_task_to_worker}
use netbula.Fleet.Delivery.{send_work-delivered}
use netbula.Fleet.Stopping.{Told, send_work-stopped}
use netbula.Tests.Examples.{linked_state, linked-Inv}
use netbula.Tests.Disks.{is_port, is_port-eq}
use netbula.Tests.Runs.{parts, worker}
use netbula.Tests.Samples.{
  unary, unary-IsUuids, plain, fifo, fifo-IsFifo, memory, ticks, job, silent,
}

abbrev order : State → TaskEvent
order s = record { id = 9; target_state = s; timestamp = 0; task = job scheduled }

state_eq-eq : (s r : State) → state_eq s r ≡ true → r ≡ s
state_eq-eq s r h = ground arith

abbrev pub is_job : Task → Bool
is_job t =
    ((t.id == 3)
      && ((t.name == "job")
          && (state_eq scheduled t.state && (t.image == "docker.io/library/alpine"))))
    && (((t.cpu == 1) && (is_port 64 t.memory && (is_port 8 t.disk && (t.exposed_ports == ""))))
        && (((t.port_bindings == "") && (t.restart_policy == "always"))
            && ((t.start_time == 0) && ((t.finish_time == 0) && (t.container_id == "c1")))))

pub is_job-eq : (t : Task) → is_job t ≡ true → t ≡ job scheduled
is_job-eq t h = ground (
  arith,
  ==-eq t.id 3,
  ==-eq t.name "job",
  state_eq-eq scheduled t.state,
  ==-eq t.image "docker.io/library/alpine",
  ==-eq t.cpu 1,
  is_port-eq 64 t.memory,
  is_port-eq 8 t.disk,
  ==-eq t.exposed_ports "",
  ==-eq t.port_bindings "",
  ==-eq t.restart_policy "always",
  ==-eq t.start_time 0,
  ==-eq t.finish_time 0,
  ==-eq t.container_id "c1",
)

abbrev is_order : TaskEvent → Bool
is_order te =
    ((te.id == 9) && state_eq scheduled te.target_state) && ((te.timestamp == 0) && is_job te.task)

is_order-eq : (te : TaskEvent) → is_order te ≡ true → te ≡ order scheduled
is_order-eq te h = ground (
  arith,
  ==-eq te.id 9,
  state_eq-eq scheduled te.target_state,
  ==-eq te.timestamp 0,
  is_job-eq te.task,
)

abbrev W : netbula.Worker.Parts
W = parts none

abbrev Workers : Type 0
Workers = ℕ → Worker W

abbrev set : ℕ → Worker W → Workers → Workers
set c w workers = λ v. if v == c then w else workers v

-- A text without as many characters as this one has.
unfoldable pub behind : String → String → String
behind String.[] s = s
behind (String.◌∷◌ c p) String.[] = String.[]
behind (String.◌∷◌ c p) (String.◌∷◌ d s) = behind p s

pub behind-append : (p s : String) → behind p (p <> s) ≡ s
unfolding behind
behind-append String.[] s = append.nil s
behind-append (String.◌∷◌ c p) s =
    ap (behind (String.◌∷◌ c p)) (append.cons c p s) ∙ behind-append p s

abbrev answer : Workers → Workers × Result Response
answer w = (w, err (fresh "connection refused"))

abbrev handle : ℕ → String → String → String → Workers → Workers × Result Response
handle c method url body workers =
    if method == "POST"
    then (if body == "order"
        then (let (w, replies) = start_task_handler W (workers c) (ok (order scheduled)) in
            (set c w workers, ok (record { status_code = status_of replies; body = "{}" })))
        else answer workers)
    else (if method == "DELETE"
        then (let (w, replies) =
              stop_task_handler W (workers c) (behind "http://worker/tasks/" url) in
            (set c w workers, ok (record { status_code = status_of replies; body = "" })))
        else answer workers)

abbrev serving : Net
serving = record silent {
  Client = ℕ;
  World = Workers;
  request = handle;
  arrival = λ world ids. ids;
  encode_event = λ te. if is_order te then ok "order" else err (fresh "unsupported value");
}

abbrev fleet : Fleet serving W
fleet = record { worker_at = λ world. world; reach = λ c. c }

-- The worker takes the order that is sent as it was encoded.
post_order :
    (c : ℕ) (te : TaskEvent) (body : String) (world : Workers) (resp : Response)
    → serving.encode_event te ≡ ok body
    → (handle c "POST" "http://worker/tasks" body world).1 ≡ ok resp
    → ((handle c "POST" "http://worker/tasks" body world).0 c
        ≡ (start_task_handler W (world c) (ok te)).0)
      × (resp.status_code ≡ status_of (start_task_handler W (world c) (ok te)).1)
post_order c te body world resp e p =
    let post : ◌==◌ {A = String} "POST" "POST" ≡ true = ==-refl {A = String} "POST" in
    let sent : ◌==◌ {A = String} "order" "order" ≡ true = ==-refl {A = String} "order" in
    let self = ==-refl c in
    let same : te ≡ order scheduled = ground (arith, is_order-eq te) in
    let text : body ≡ "order" = ground arith in (ground arith, ground arith)

delete_job :
    (c id : ℕ) (world : Workers) (resp : Response)
    → (handle c "DELETE" ("http://worker/tasks/" <> ticks id) "" world).1 ≡ ok resp
    → ((handle c "DELETE" ("http://worker/tasks/" <> ticks id) "" world).0 c
        ≡ (stop_task_handler W (world c) (ticks id)).0)
      × (resp.status_code ≡ status_of (stop_task_handler W (world c) (ticks id)).1)
delete_job c id world resp p =
    let rest : behind "http://worker/tasks/" ("http://worker/tasks/" <> ticks id) ≡ ticks id =
      behind-append "http://worker/tasks/" (ticks id) in
    let post : ◌==◌ {A = String} "DELETE" "POST" ≡ false = unfold string_eq in refl in
    let delete : ◌==◌ {A = String} "DELETE" "DELETE" ≡ true = ==-refl {A = String} "DELETE" in
    let self = ==-refl c in (ground arith, ground arith)

fleet-IsServing : IsServing serving unary W fleet
fleet-IsServing = record {
  to_string-same = λ id. refl;
  request-other = λ c method url body world v n. ground (arith, ==-ne v c n);
  request-get = λ c url world v. unfold string_eq in refl;
  request-post = post_order;
  request-delete = delete_job;
}

abbrev served : netbula.Manager.Core.Parts
served = record {
  uuids = unary;
  stores = memory;
  net = serving;
  queue = fifo TaskEvent;
  scheduler = epvm plain;
}

-- Task 3 is stored under worker 5, to which the one client is connected.
abbrev manager : State → Manager served
manager s = record {
  state = linked_state;
  worker_cluster = record { worker_client_map = (5, 5) ∷ []; worker_nodes = []; notices = [] };
  pending = order s ∷ [];
  scheduler = tt;
  world = λ v. worker none running;
}

abbrev ordered : State → Task → Manager served
ordered s t = record (manager s) {
  state = record linked_state { event_db = (ticks 9, order s) ∷ [] };
  pending = [];
  world = set 5 (record (worker none running) { queue = t ∷ [] }) (λ v. worker none running);
}

manager-Connected : (s : State) → Connected fleet (manager s).worker_cluster
unfolding lookup
manager-Connected s w c h = ground arith

send_work-delivered_example :
    let n = ordered scheduled (job scheduled) in
    (w : ℕ) × ((n.world w).queue ≡ job scheduled ∷ [])
    × ((n.world w).task_db ≡ (worker none running).task_db)
    × ((v : ℕ) → v ≢ w → n.world v ≡ worker none running)
    × (get_task unary memory n.state 3 ≡ (some (job scheduled), none))
    × (get_assigned_worker unary memory n.state 3 ≡ (some w, none))
unfolding send_work nat_eq update_task_event put get_assigned_worker get lookup insert string_eq
    assign_task_to_worker send_task start_task_handler contains get_or
send_work-delivered_example =
    send_work-delivered served W fleet fleet-IsServing (memory_store-IsLawful Task)
      (memory_store-IsLawful ℕ) (fifo-IsFifo TaskEvent) (fifo-IsFifo Task) (manager scheduled)
      (ordered scheduled (job scheduled)) (order scheduled) (order scheduled) [] linked-Inv.task_ok
      linked-Inv.link_ok (manager-Connected scheduled) refl (λ e. ground arith) refl

send_work-stopped_example :
    let n = ordered completed (job completed) in
    (w : ℕ) × (get_assigned_worker unary memory linked_state 3 ≡ (some w, none))
    × (n.state.task_db ≡ linked_state.task_db)
    × Told served W fleet fleet-IsServing unary-IsUuids
        (fifo-IsFifo Task)
        w
        3
        (manager completed).world
        n.world
unfolding send_work nat_eq update_task_event put get_assigned_worker get lookup insert string_eq
    stop_task stop_task_handler behind
send_work-stopped_example =
    send_work-stopped served W fleet fleet-IsServing unary-IsUuids (fifo-IsFifo Task)
      (fifo-IsFifo TaskEvent) (manager completed) (ordered completed (job completed))
      (order completed) (order completed) [] (manager-Connected completed) refl refl refl
