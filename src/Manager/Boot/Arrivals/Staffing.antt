-- ===== src/Manager/Boot/Arrivals/Staffing.antt =====
-- internal/app/manager/boot.go: the workers and the connections that `waitForWorkersForever` leaves.
use netbula.Base.{
  ℕ, String, ◌≡◌, refl, sym, subst, inl, inr, true, none, some, List, [], ◌∷◌, arith, contains,
  contains-append, nat_eq, string_eq, Option-cases,
}
use netbula.Base.Dict.{lookup, lookup-insert}
use netbula.Base.Result.{Err, Result, ok, err, Result-cases}
use netbula.Uuids.{IsUuids}
use netbula.Store.{IsLawful}
use netbula.Worker
use netbula.Manager.State.{MappingStorage, register_worker}
use netbula.Manager.State.Roster.{Roster, register_worker-Roster}
use netbula.Manager.Cluster.{add_client, update_worker_nodes}
use netbula.Manager.Core.{Parts, Manager, refresh, add_worker_and_client}
use netbula.Manager.Boot.Arrivals.{fetch_info, take_in, wait_for_workers}
use netbula.Fleet.{Fleet, Connected}

module _ (P : Parts) (W : netbula.Worker.Parts) (F : Fleet P.net W)
    (NameOk : P.stores.worker_names.State → Type 0) where
  -- Each worker is registered once; each client is connected to the worker under whose id it
  -- stands, and that worker is registered.
  pub record Staffed (m : Manager P) : Type 0 where
    pub roster : Roster P.uuids P.stores NameOk m.state
    pub connected : Connected F m.worker_cluster
    pub manned :
        (w : ℕ) (client : P.net.Client)
        → lookup w m.worker_cluster.worker_client_map ≡ some client
        → contains m.state.workers w ≡ true

  -- Only the state and the clients matter.
  Staffed-same :
      (m n : Manager P)
      → n.state ≡ m.state
      → n.worker_cluster.worker_client_map ≡ m.worker_cluster.worker_client_map
      → Staffed m
      → Staffed n
  Staffed-same m n s c staffed = record {
    roster = subst (Roster P.uuids P.stores NameOk) (sym s) staffed.roster;
    connected = λ w client l. staffed.connected w client (ground arith);
    manned = λ w client l. ground (arith, staffed.manned w client);
  }

  refresh-Staffed : (m n : Manager P) → refresh P m ≡ some n → Staffed m → Staffed n
  unfolding refresh update_worker_nodes
  refresh-Staffed m n h staffed = Staffed-same m n (ground arith) (ground arith) staffed

  module _ (law : IsUuids P.uuids) (names : IsLawful P.stores.worker_names NameOk) where
    -- A registration that fails changes nothing.
    register_worker_error :
        (st : MappingStorage P.stores) (uuid : ℕ) (name : String) (e : Err)
        → (register_worker P.uuids P.stores st uuid name).1 ≡ some e
        → (register_worker P.uuids P.stores st uuid name).0 ≡ st
    unfolding register_worker
    register_worker_error st uuid name e h = ground arith

    -- Nobody leaves the list.
    register_worker-workers :
        (st st' : MappingStorage P.stores) (uuid w : ℕ) (name : String)
        → register_worker P.uuids P.stores st uuid name ≡ (st', none)
        → contains st.workers w ≡ true
        → contains st'.workers w ≡ true
    unfolding register_worker
    register_worker-workers st st' uuid w name h c =
        ground (arith, contains-append st.workers (uuid ∷ []) w)

    add_worker_and_client-Staffed :
        (m : Manager P) (uuid : ℕ) (name : String) (client : P.net.Client)
        → F.reach client ≡ uuid
        → Staffed m
        → Staffed (add_worker_and_client P m uuid name client)
    unfolding add_worker_and_client add_client
    add_worker_and_client-Staffed m uuid name client here staffed =
        elim (Option-cases (register_worker P.uuids P.stores m.state uuid name).1) [
          | inr (e, p) ↦
              let same = register_worker_error m.state uuid name e p in
              Staffed-same m (add_worker_and_client P m uuid name client) (ground arith)
                (ground arith) staffed
          | inl p ↦
              let st' = (register_worker P.uuids P.stores m.state uuid name).0 in
              let (roster, self, shown) =
                register_worker-Roster P.uuids P.stores law names m.state st' staffed.roster uuid
                  name (ground arith) in
              let k : Manager P = record m {
                state = st';
                worker_cluster = add_client P.net m.worker_cluster uuid client;
              } in
              let e : k ≡ add_worker_and_client P m uuid name client = ground arith in
              subst Staffed e (record {
                roster = roster;
                connected = λ w c l. ground (
                  arith,
                  lookup-insert w uuid client m.worker_cluster.worker_client_map,
                  staffed.connected w c,
                );
                manned = λ w c l. ground (
                  arith,
                  lookup-insert w uuid client m.worker_cluster.worker_client_map,
                  staffed.manned w c,
                  register_worker-workers m.state st' uuid w name (ground arith),
                );
              })
        ]

    module _ (decode_info : String → Result (ℕ × String))
        (honest : (client : P.net.Client) (a b : P.net.World) (uuid : ℕ) (name : String)
          → fetch_info P decode_info client a ≡ (b, ok (uuid, name))
          → F.reach client ≡ uuid) where
      take_in-Staffed :
          (c : Result P.net.Client) (m n : Manager P)
          → take_in P decode_info c m ≡ some n
          → Staffed m
          → Staffed n
      unfolding take_in
      take_in-Staffed (err e) m n h staffed = subst Staffed (ground arith) staffed
      take_in-Staffed (ok client) m n h staffed =
          let next : Manager P = record m { world = (fetch_info P decode_info client m.world).0 } in
          elim (Result-cases (fetch_info P decode_info client m.world).1) [
            | inl (e, p) ↦ Staffed-same m n (ground arith) (ground arith) staffed
            | inr ((uuid, name), p) ↦
                refresh-Staffed (add_worker_and_client P next uuid name client) n (ground arith) (
                  add_worker_and_client-Staffed next uuid name client
                    (honest client m.world next.world uuid name (ground arith))
                    (Staffed-same m next refl refl staffed))
          ]

      -- Whoever connects, and whatever goes wrong on the way, the loop that takes in the workers
      -- keeps it so that each worker is registered once, that each client is connected to the worker
      -- under whose id it stands, and that this worker is registered. A worker tells its own id.
      pub wait_for_workers-Staffed :
          (connections : List (Result P.net.Client)) (m n : Manager P)
          → wait_for_workers P decode_info connections m ≡ some n
          → Staffed m
          → Staffed n
      unfolding wait_for_workers
      wait_for_workers-Staffed [] m n h staffed = subst Staffed (ground arith) staffed
      wait_for_workers-Staffed (c ∷ connections) m n h staffed =
          elim (Option-cases (take_in P decode_info c m)) [
            | inl e ↦ absurd (ground arith)
            | inr (k, e) ↦
                wait_for_workers-Staffed connections k n (ground arith)
                  (take_in-Staffed c m k e staffed)
          ]
