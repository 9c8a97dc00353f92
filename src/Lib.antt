-- ===== src/Lib.antt =====
-- Netbula: a container orchestrator in Go. A manager schedules tasks onto workers; each worker
-- runs its tasks as Docker containers. This library models the core of both and proves what
-- keeps them consistent.
--
-- The parts and how they interact: the manager (internal/app/manager/manager.go) takes task
-- events off its queue, asks a scheduler (internal/scheduler) for a worker, records the
-- assignment in its state (internal/app/manager/state.go) and sends the event through its
-- cluster of connections (internal/app/manager/cluster.go). The handlers of the worker
-- (internal/app/worker/handler.go) put the task in the worker's queue; the worker
-- (internal/app/worker/worker.go) checks the transition (internal/task/task.go), drives Docker
-- (internal/docker/docker.go) and stores the task (internal/store). The manager's periodic sync
-- reads the tasks back and updates its state.
--
-- The files:
--
-- - Base and the files below it: equality, lists, association lists, Go's int without its
--   bounds, results with wrapped errors. An error keeps its message without the values that
--   are printed into it.
-- - Task: internal/task/task.go. State, Task, TaskEvent, valid_state_transition
--   (ValidStateTransition), new_config (NewConfig); Task/Text: String, StringToState and the
--   JSON methods; Task/Lifecycle: the diagram of docs/architecture.md and histories of tasks.
-- - Store: the interface of internal/store/store.go with its laws. Store/Memory:
--   InMemoryStore. Store/Persistent: PersistentStore over a bbolt bucket. `write_through` is
--   what a change to a value that Get returned does to the store: the in-memory store shares
--   it, the persistent store does not.
-- - Node: internal/node/node.go and Stats and GetStats of
--   internal/networks/types/workerstats.go.
-- - Scheduler, Scheduler/Epvm, Scheduler/RoundRobin: internal/scheduler. The files below Epvm
--   (Picking, Choice) and RoundRobin (Rotation) hold the proofs.
-- - Docker: internal/docker/docker.go (Run, Stop, Inspect). Http: lib/routers/helpers.go, the
--   replies that a handler writes, in their order.
-- - Worker: internal/app/worker/worker.go; Worker/Handlers: internal/app/worker/handler.go;
--   Worker/Transitions and Worker/Monitor: proofs on transitionTask and updateTasks;
--   Worker/Races: a task that is stopped while updateTasks runs; Worker/Evolution and the
--   files below it: how the stored tasks change over the whole run of a worker, whose steps
--   are in Lifetimes.
-- - Manager/State: MappingStorage of internal/app/manager/state.go, one function per method;
--   Manager/State/Rehydrate: NewState. The invariant stands in Manager/State/Invariant: for
--   each worker the count of active tasks is the number of tasks in its list that are stored
--   as Scheduled or Running, no list has a task twice, the lists are the inverse of the
--   stored assignment, and no assigned task is Pending. Update, Assign, Recover (with
--   Grouping, Remembered and Reordering), Faults and Roster hold the proofs.
-- - Manager/Cluster: HttpClientCluster of internal/app/manager/cluster.go;
--   Manager/Cluster/Sync: proofs on SyncTasks; Manager/Cluster/Changes: detectNodeChanges,
--   whose log lines the cluster keeps as notices, with proofs in Maps and Notices.
--   Manager/Core: Manager of internal/app/manager/manager.go; Manager/Core/Events,
--   Manager/Core/Counts and Manager/Core/Totality: proofs on SendWork. Manager/Api:
--   internal/app/manager/api.go; Manager/Api/Access: what the API can do.
-- - Security: internal/networks/security/security.go; Security/Hex: the hexadecimal digits of
--   encoding/hex; Security/Pinning: proofs on the check of the pinned certificate. Configs:
--   internal/configs, with Configs/Setup for the file that is read back.
-- - Manager/Boot: SetupConfig of internal/app/manager/boot.go, with Manager/Boot/Restart;
--   Manager/Boot/Startup: the stores and New; Manager/Boot/App: NewApp and the listeners;
--   Manager/Boot/Recovery: proofs on a manager that is made again from its stores;
--   Manager/Boot/Arrivals, with Staffing: waitForWorkersForever. Worker/Boot: parseWorkerArgs
--   and setupWorkerConfig of internal/app/worker/boot.go, with Worker/Boot/Setup;
--   Worker/Boot/Launch: Run up to its loop of sessions, and NewWorker, with
--   Worker/Boot/Resume. Control/Boot and Control/Api: internal/app/control; Control/Remote:
--   the control program in front of a manager's API.
-- - Manager/Core/Loops: the loop of SendTasksForever, with the API in between, and proofs on
--   it in Draining and Cancelling; Worker/Rounds: those of RunTasksForever. Manager/System:
--   the steps of a manager that runs, restarts included; each is a whole call, and calls that
--   overlap are not modelled there.
-- - Cmd: the commands of cmd. Cmd/Control: cmd/control.go and cmd/control, with what they
--   print; Cmd/Settings, Cmd/Orders and Cmd/Listing: the commands in front of a manager's
--   API. Cmd/Manager: cmd/manager.go, with Cmd/Serving; Cmd/Worker: cmd/worker.go.
-- - Manager/Core/Selection: proofs on SelectWorker with E-PVM. Fleet and the files below it:
--   the manager with the workers at the other end of its network, and what has reached a
--   worker when SendWork succeeds (Delivery, Stopping); Manager/Core/Success: the calls that
--   such a SendWork made.
-- - Tests and the files below it: concrete instances and runs.
--
-- What the code takes from elsewhere is a parameter: google/uuid (Uuids, ids as numbers),
-- float64 (Floats: values as numbers of which only the operations and the laws of the order are
-- known), the FIFO queue (Queue), bbolt (Bolt), encoding/json (Codec, StringJson, the decoders
-- of Net), the Docker client (Client), HTTP and the network (Net, Https), the file system
-- (Files), sockets (Sockets), texts of numbers and durations (Format), gopsutil (Machine),
-- Ed25519, X.509 and SHA-256 (Crypto), the clock (an argument, or its readings in turn). The
-- laws that a theorem needs of them are records (IsUuids, IsOrdered, IsFifo, IsBolt, IsCodec,
-- IsStringJson, IsFiles, IsCrypto, and IsHanding on what a change to a value that a store
-- handed out does), each with an instance in Tests/Samples, Tests/Disks or below Store. That
-- each worker answers a round of requests at most once is IsArrival (Manager/Core/Selection).
-- Where two programs meet, IsServing (a manager's network and its workers) and IsApi (a control
-- program's network and the manager) say that a request that is answered was handled once at
-- the other end; Tests/Fleets and Tests/Remotes have instances.
--
-- A method that holds the mutex is one step from state to state. A panic is `none`. Every
-- function is total: loops over lists are recursion on the list, in the order in which Go
-- visits them; where Go leaves the order of a map open, the model uses the order of the
-- association list, and where goroutines race, the order in which the answers arrive is a
-- parameter. The loops that never end are modelled for a given number of rounds or steps. There
-- is no fuel.
--
-- Not modelled: the sessions of the three programs, the command `control run` (its flags clash,
-- so that it panics before its function is called), a null in a worker's list of tasks (a
-- decoded list holds tasks only; UpdateTask would panic at it, and workers send none), TLS
-- beyond the certificate that is presented and the check of its fingerprint, cobra's parsing of
-- flags, log lines other than those above, and the generated mocks.
pub mod Base
pub mod Task
pub mod Store
pub mod Uuids
pub mod Floats
pub mod Node
pub mod Scheduler
pub mod Queue
pub mod Http
pub mod Docker
pub mod Security
pub mod Configs
pub mod Control
pub mod Cmd
pub mod Fleet
pub mod Worker
pub mod Manager
pub mod Tests
