-- ===== src/Manager/State/Roster.antt =====
-- internal/app/manager/state.go: `RegisterWorker` and the list of workers.
use netbula.Base.{
  ℕ, String, ◌≡◌, inl, inr, Bool, true, false, Option, none, some, [], ◌∷◌, ◌++◌, arith, contains,
  contains-append, append-Distinct, Distinct, string_eq, nat_eq, if◌then◌else◌,
}
use netbula.Base.Result.{Err, ok, Result-cases}
use netbula.Store.{IsLawful}
use netbula.Uuids.{Uuids, IsUuids, to_string-injective}
use netbula.Manager.State.{Stores, MappingStorage, count_of, register_worker, get_worker_metadata}

abbrev pub is_stored {ℓ} : {V : Type ℓ} → Option V × Option Err → Bool
is_stored (some v, none) = true
is_stored _ = false

-- The workers in the list are those with a name in the store, each once.
pub record Roster (U : Uuids) (D : Stores) (NameOk : D.worker_names.State → Type 0)
    (st : MappingStorage D) : Type 0 where
  pub name_ok : NameOk st.worker_name_db
  pub distinct : Distinct st.workers
  pub named :
      (w : ℕ)
      → contains st.workers w ≡ is_stored (D.worker_names.get (U.to_string w) st.worker_name_db)

module _ (U : Uuids) (D : Stores) (law : IsUuids U) {NameOk : D.worker_names.State → Type 0}
    (names : IsLawful D.worker_names NameOk) (st st' : MappingStorage D)
    (roster : Roster U D NameOk st) (worker_uuid : ℕ) (worker_name : String)
    (done : register_worker U D st worker_uuid worker_name ≡ (st', none)) where
  abbrev got : Option String × Option Err
  got = D.worker_names.get (U.to_string worker_uuid) st.worker_name_db

  registered :
      (db : D.worker_names.State) × (D.worker_names.put
          (U.to_string worker_uuid)
          worker_name
          st.worker_name_db
        ≡ ok db)
      × (st'.worker_name_db ≡ db)
      × (st'.workers ≡ (if is_stored got then st.workers else st.workers ++ worker_uuid ∷ []))
      × (st'.worker_active_task_count_map ≡ st.worker_active_task_count_map)
  unfolding register_worker
  registered =
      elim (Result-cases
        (D.worker_names.put (U.to_string worker_uuid) worker_name st.worker_name_db)) [
          | inl (e, p) ↦ absurd (ground arith)
          | inr (db, p) ↦ (db, p, ground arith, ground arith, ground arith)
        ]

  -- A worker that registers, for the first time or again, stands in the list of workers exactly
  -- once, as does every other, and the metadata show the name given and the count unchanged.
  pub register_worker-Roster :
      Roster U D NameOk st'
      × (contains st'.workers worker_uuid ≡ true)
      × (get_worker_metadata U D st' worker_uuid
          ≡ (worker_name, count_of worker_uuid st.worker_active_task_count_map))
  unfolding get_worker_metadata contains
  register_worker-Roster =
      let (db, p, e, f, c) = registered in
      let self =
        names.get-put (U.to_string worker_uuid) (U.to_string worker_uuid) worker_name
          st.worker_name_db db p roster.name_ok in
      (
        record {
          name_ok = rw e (
              names.put-IsValid (U.to_string worker_uuid) worker_name st.worker_name_db db p
                roster.name_ok);
          distinct = ground (
            arith,
            roster.distinct,
            append-Distinct st.workers worker_uuid roster.distinct,
            roster.named worker_uuid,
          );
          named = λ w. ground (
            arith,
            roster.named w,
            roster.named worker_uuid,
            contains-append st.workers (worker_uuid ∷ []) w,
            to_string-injective U law worker_uuid w,
            names.get-put (U.to_string worker_uuid) (U.to_string w) worker_name st.worker_name_db db
                p roster.name_ok,
          );
        },
        ground (
          arith,
          roster.named worker_uuid,
          contains-append st.workers (worker_uuid ∷ []) worker_uuid,
        ),
        ground (arith, self, c),
      )
