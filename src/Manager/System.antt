-- ===== src/Manager/System.antt =====
-- internal/app/manager: the steps of a manager that runs. The API of api.go, the loops of manager.go
-- and the loop of boot.go that takes in workers each call one method at a time; a restart keeps the
-- stores.
use netbula.Base.{
  ℕ, String, ◌≡◌, sym, subst, inl, inr, Option, some, List, arith, string_eq, nat_eq,
}
use netbula.Base.Dict.{Dict}
use netbula.Base.Result.{Err, Result, ok, err, Result-cases}
use netbula.Store.{IsLawful, Reliable}
use netbula.Task.{TaskEvent}
use netbula.Uuids.{IsUuids}
use netbula.Queue.{IsFifo, head?}
use netbula.Http.{Reply}
use netbula.Manager.State.{MappingStorage, get_worker_ids, register_worker}
use netbula.Manager.State.Invariant.{Inv, Inv-same}
use netbula.Manager.State.Grouping.{Canonical}
use netbula.Manager.Cluster.Sync.{AllExpected, sync_tasks-Inv}
use netbula.Manager.Core.{Parts, Manager, add_worker_and_client, send_work, update_tasks}
use netbula.Manager.Core.Counts.{Live, refresh-state, send_work-Inv}
use netbula.Manager.Api.{Request, authenticate}
use netbula.Manager.Api.Access.{authenticate-Served}
use netbula.Manager.Boot.Arrivals.{fetch_info, take_in}
use netbula.Manager.Boot.Startup.{new}
use netbula.Manager.Boot.Recovery.{stores_of, new-restored}

module _ (P : Parts) (auth_token : String) (decode_info : String → Result (ℕ × String)) where
  -- What may happen next. An event that is sent is about a task that is new, or assigned and
  -- active; what the workers report is expected; the keys of the stored assignment are ids.
  pub data Step (m : Manager P) : Manager P → Type 0 where
    asked :
        (token : String) (request : Request) (fresh_id now : ℕ) (m' : Manager P)
        (replies : List Reply)
        → authenticate P auth_token m token request fresh_id now ≡ some (m', replies)
        → Step m m'
    sent :
        (m' : Manager P) (te : TaskEvent) (target : Option TaskEvent) (e : Option Err)
        → head? (P.queue.contents m.pending) ≡ some te
        → Live P.uuids P.stores m.state te.task.id
        → send_work P m ≡ some (m', target, e)
        → Step m m'
    synced :
        AllExpected P.uuids P.stores P.net m.worker_cluster
          (P.net.arrival m.world (get_worker_ids P.uuids P.stores m.state))
          m.state
          m.world
        → Step m (update_tasks P m)
    connected :
        (c : Result P.net.Client) (m' : Manager P) → take_in P decode_info c m ≡ some m' → Step m m'
    restarted :
        (scheduler : P.scheduler.State) (world : P.net.World) (m' : Manager P)
        → ((es : Dict String ℕ)
            → P.stores.task_workers.entries m.state.task_worker_db ≡ ok es
            → Canonical P.uuids es)
        → new P scheduler (stores_of P.stores m.state) world ≡ ok m'
        → Step m m'

  pub data Reaches (m : Manager P) : Manager P → Type 0 where
    start : Reaches m m
    step : {m' m'' : Manager P} → Reaches m m' → Step m' m'' → Reaches m m''

module _ (P : Parts) (law : IsUuids P.uuids) {TaskOk : P.stores.tasks.State → Type 0}
    {LinkOk : P.stores.task_workers.State → Type 0} (tasks : IsLawful P.stores.tasks TaskOk)
    (links : IsLawful P.stores.task_workers LinkOk) (task_io : Reliable P.stores.tasks)
    (link_io : Reliable P.stores.task_workers) (fifo : IsFifo P.queue) where
  abbrev Exact : MappingStorage P.stores → Type 0
  Exact st = Inv P.uuids P.stores TaskOk LinkOk st

  register_worker-Inv :
      (st : MappingStorage P.stores) (uuid : ℕ) (name : String)
      → Exact st
      → Exact (register_worker P.uuids P.stores st uuid name).0
  unfolding register_worker
  register_worker-Inv st uuid name inv =
      let st' = (register_worker P.uuids P.stores st uuid name).0 in
      Inv-same P.uuids P.stores st st' (ground arith) (ground arith) (ground arith) (ground arith)
        inv

  add_worker_and_client-Inv :
      (m : Manager P) (uuid : ℕ) (name : String) (client : P.net.Client)
      → Exact m.state
      → Exact (add_worker_and_client P m uuid name client).state
  unfolding add_worker_and_client
  add_worker_and_client-Inv m uuid name client inv =
      subst Exact (ground arith) (register_worker-Inv m.state uuid name inv)

  module _ (auth_token : String) (decode_info : String → Result (ℕ × String)) where
    take_in-Inv :
        (c : Result P.net.Client) (m n : Manager P)
        → take_in P decode_info c m ≡ some n
        → Exact m.state
        → Exact n.state
    unfolding take_in
    take_in-Inv (err e) m n h inv = subst Exact (ground arith) inv
    take_in-Inv (ok client) m n h inv =
        let next : Manager P = record m { world = (fetch_info P decode_info client m.world).0 } in
        elim (Result-cases (fetch_info P decode_info client m.world).1) [
          | inl (e, p) ↦ subst Exact (ground arith) inv
          | inr ((uuid, name), p) ↦
              subst Exact
                (sym (
                  refresh-state P law tasks links task_io link_io
                    (add_worker_and_client P next uuid name client) n (ground arith)))
                (add_worker_and_client-Inv next uuid name client inv)
        ]

    Step-Inv : (m n : Manager P) → Step P auth_token decode_info m n → Exact m.state → Exact n.state
    unfolding update_tasks
    Step-Inv m n (asked token request fresh_id now m' replies h) inv =
        let (served, allowed) =
          authenticate-Served P fifo auth_token token m request fresh_id now (n, replies) h in
        subst Exact (sym served.0) inv
    Step-Inv m n (sent m' te target e first live h) inv =
        send_work-Inv P law tasks links task_io link_io fifo m n te target e inv first live h
    Step-Inv m n (synced expected) inv =
        sync_tasks-Inv P.uuids P.stores law tasks task_io P.net m.worker_cluster m.state m.world inv
          expected
    Step-Inv m n (connected c m' h) inv = take_in-Inv c m n h inv
    Step-Inv m n (restarted scheduler world m' canonical h) inv =
        (new-restored P law links fifo scheduler world m n inv canonical h).0

    -- However the requests of the control program, the sending of events, the synchronisation with
    -- the workers, the arrival of workers and restarts follow on each other, each worker's count
    -- stays equal to the number of its tasks that are stored as Scheduled or Running, and the lists
    -- agree with the stored assignment. This holds for stores that do not fail, if each event that
    -- is sent is about a task that is new, or assigned and active; each state that a worker reports
    -- is the one stored at its turn or validly reached from it; and the keys of the stored
    -- assignment are ids at each restart.
    pub reached_manager-Inv :
        (m n : Manager P)
        → Inv P.uuids P.stores TaskOk LinkOk m.state
        → Reaches P auth_token decode_info m n
        → Inv P.uuids P.stores TaskOk LinkOk n.state
    reached_manager-Inv m n inv start = inv
    reached_manager-Inv m n inv (step {m'} past s) =
        Step-Inv m' n s (reached_manager-Inv m m' inv past)
