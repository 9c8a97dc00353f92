-- ===== src/Store/Persistent.antt =====
-- internal/store/persistent_store.go: a store in a bucket of a bbolt database, its values as JSON.
use netbula.Base.{
  ℕ, String, ◌≡◌, refl, Option, none, some, List, [], ◌∷◌, arith, length, inl, inr, Distinct,
  contains, ◌==◌, string_eq, if◌then◌else◌,
}
use netbula.Base.Result.{Err, Result, ok, err, ◌>>=◌, Result-cases}
use netbula.Base.Dict.{Dict, lookup, keys, values}
use netbula.Store.{Store, IsLawful, IsHanding}

-- A bbolt database, seen through one of its buckets. `view_error` and `update_error` are what
-- `View` and `Update` return without running their function, as on a closed database.
pub record Bolt : Type 1 where
  pub Db : Type 0
  pub view_error : Db → Option Err
  pub update_error : Db → Option Err
  pub bucket_put : String → String → Db → Result Db
  pub bucket_get : String → Db → Option String
  pub for_each : Db → Dict String String
  pub key_n : Db → ℕ
  pub create_bucket_if_not_exists : Db → Result Db
  pub close : Db → Result Db

-- What bbolt documents of an open database.
pub record IsBolt (B : Bolt) : Type 0 where
  pub get-put :
      (k j b : String) (db db' : B.Db)
      → B.bucket_put k b db ≡ ok db'
      → B.bucket_get j db' ≡ (if k == j then some b else B.bucket_get j db)
  pub put-view_error :
      (k b : String) (db db' : B.Db)
      → B.bucket_put k b db ≡ ok db'
      → B.view_error db' ≡ B.view_error db
  pub get-for_each : (k : String) (db : B.Db) → B.bucket_get k db ≡ lookup k (B.for_each db)
  pub for_each-Distinct : (db : B.Db) → Distinct (keys (B.for_each db))
  pub key_n-length : (db : B.Db) → B.key_n db ≡ length (B.for_each db)

-- encoding/json at the type of the values: decoding fills a value also where it fails.
pub record Codec (V : Type 0) : Type 0 where
  pub marshal : V → Result String
  pub unmarshal : String → V × Option Err

pub record IsCodec {V : Type 0} (C : Codec V) : Type 0 where
  pub unmarshal-marshal : (v : V) (b : String) → C.marshal v ≡ ok b → C.unmarshal b ≡ (v, none)

abbrev fail_or {ℓ} : {A : Type ℓ} → Option Err → Result A → Result A
fail_or none r = r
fail_or (some e) r = err e

module _ (B : Bolt) {V : Type 0} (C : Codec V) where
  -- `Update` runs the function in a transaction and takes its changes back if it fails.
  unfoldable pub put : String → V → B.Db → Result B.Db
  put key value db = fail_or (B.update_error db) (do b ← C.marshal value; B.bucket_put key b db)

  abbrev decode : Option String → Option V × Option Err
  decode none = (none, none)
  decode (some b) = let (v, e) = C.unmarshal b in (some v, e)

  -- If `View` does not run the function, `isInBucket` stays false and its error is dropped.
  unfoldable pub get : String → B.Db → Option V × Option Err
  get key db = elim (B.view_error db) [
    | none ↦ decode (B.bucket_get key db)
    | some e ↦ (none, none)
  ]

  unfoldable pub count : B.Db → Result ℕ
  count db = fail_or (B.view_error db) (ok (B.key_n db))

  -- The loop of `ForEach`, which stops at the first value that cannot be decoded.
  unfoldable pub decode_all : Dict String String → Result (Dict String V)
  decode_all [] = ok []
  decode_all ((k, b) ∷ es) = do
    v ← (let (v, e) = C.unmarshal b in fail_or e (ok v))
    rest ← decode_all es
    ok ((k, v) ∷ rest)

  unfoldable pub entries : B.Db → Result (Dict String V)
  unfolding count
  entries db = do value_count ← count db; fail_or (B.view_error db) (decode_all (B.for_each db))

  unfoldable pub list : B.Db → Result (List V)
  unfolding count
  list db = do
    value_count ← count db
    fail_or (B.view_error db) (do es ← decode_all (B.for_each db); ok (values es))

  -- `Get` decodes into a fresh value, which the bucket does not share.
  unfoldable pub write_through : String → V → B.Db → B.Db
  write_through key value db = db

  abbrev pub persistent_store : Store V
  persistent_store = record {
    State = B.Db;
    put = put;
    get = get;
    list = list;
    entries = entries;
    count = count;
    write_through = write_through;
  }

  decode_all-lookup :
      (k : String) (bs : Dict String String) (es : Dict String V)
      → decode_all bs ≡ ok es
      → decode (lookup k bs) ≡ (lookup k es, none)
  unfolding decode_all lookup
  decode_all-lookup k [] es h = ground arith
  decode_all-lookup k ((j, b) ∷ bs) es h = elim (Result-cases (decode_all bs)) [
    | inl (e, f) ↦ ground arith
    | inr (rest, f) ↦ ground (arith, decode_all-lookup k bs rest f)
  ]

  decode_all-keys :
      (bs : Dict String String) (es : Dict String V) (j : String)
      → decode_all bs ≡ ok es
      → (contains (keys es) j ≡ contains (keys bs) j) × (length es ≡ length bs)
  unfolding decode_all keys contains
  decode_all-keys [] es j h = ground arith
  decode_all-keys ((k, b) ∷ bs) es j h = elim (Result-cases (decode_all bs)) [
    | inl (e, f) ↦ ground arith
    | inr (rest, f) ↦ ground (arith, decode_all-keys bs rest j f)
  ]

  decode_all-Distinct :
      (bs : Dict String String) (es : Dict String V)
      → decode_all bs ≡ ok es
      → Distinct (keys bs)
      → Distinct (keys es)
  unfolding decode_all keys
  decode_all-Distinct [] es h d = ground arith
  decode_all-Distinct ((k, b) ∷ bs) es h d = elim (Result-cases (decode_all bs)) [
    | inl (e, f) ↦ ground arith
    | inr (rest, f) ↦ ground (arith, decode_all-Distinct bs rest f d.1, decode_all-keys bs rest k f)
  ]

  module _ (law : IsBolt B) (json : IsCodec C) where
    put-view_error :
        (k : String) (v : V) (s s' : B.Db)
        → put k v s ≡ ok s'
        → B.view_error s ≡ none
        → B.view_error s' ≡ none
    unfolding put
    put-view_error k v s s' h o = elim (Result-cases (C.marshal v)) [
      | inl (e, f) ↦ ground arith
      | inr (b, f) ↦ ground (arith, law.put-view_error k b s s')
    ]

    get-put :
        (k j : String) (v : V) (s s' : B.Db)
        → put k v s ≡ ok s'
        → B.view_error s ≡ none
        → get j s' ≡ (if k == j then (some v, none) else get j s)
    unfolding put get
    get-put k j v s s' h o = elim (Result-cases (C.marshal v)) [
      | inl (e, f) ↦ ground arith
      | inr (b, f) ↦
          ground (
            arith,
            law.put-view_error k b s s',
            law.get-put k j b s s',
            json.unmarshal-marshal v b f,
          )
    ]

    get-entries :
        (k : String) (s : B.Db) (es : Dict String V)
        → entries s ≡ ok es
        → B.view_error s ≡ none
        → get k s ≡ (lookup k es, none)
    unfolding entries get
    get-entries k s es h o =
        ground (arith, law.get-for_each k s, decode_all-lookup k (B.for_each s) es)

    entries-Distinct :
        (s : B.Db) (es : Dict String V)
        → entries s ≡ ok es
        → B.view_error s ≡ none
        → Distinct (keys es)
    unfolding entries
    entries-Distinct s es h o =
        decode_all-Distinct (B.for_each s) es (ground arith) (law.for_each-Distinct s)

    list-entries :
        (s : B.Db) (es : Dict String V)
        → entries s ≡ ok es
        → B.view_error s ≡ none
        → (list s ≡ ok (values es)) × (count s ≡ ok (length es))
    unfolding entries list
    list-entries s es h o = ground (arith, law.key_n-length s, decode_all-keys (B.for_each s) es "")

    entries-list :
        (s : B.Db) (vs : List V)
        → list s ≡ ok vs
        → B.view_error s ≡ none
        → (es : Dict String V) × (entries s ≡ ok es)
    unfolding entries list
    entries-list s vs h o = elim (Result-cases (decode_all (B.for_each s))) [
      | inl (e, f) ↦ absurd (ground arith)
      | inr (es, f) ↦ (es, ground arith)
    ]

    -- The persistent store meets the interface while its database is open: `Get` returns what the
    -- last `Put` under that key wrote, and the listings agree with `Get`.
    pub persistent_store-IsLawful : IsLawful persistent_store (λ s. B.view_error s ≡ none)
    persistent_store-IsLawful = record {
      put-IsValid = put-view_error;
      get-put = get-put;
      get-entries = get-entries;
      entries-Distinct = entries-Distinct;
      list-entries = list-entries;
      entries-list = entries-list;
    }

pub persistent_store-IsHanding :
    (B : Bolt) {V : Type 0} (C : Codec V)
    → IsHanding (persistent_store B C) (λ s. B.view_error s ≡ none)
unfolding write_through
persistent_store-IsHanding B C = record { write = λ k v old s d g. inl refl }

-- `NewPersistentStore`: the bucket is created when the store is.
unfoldable pub new_persistent_store : (B : Bolt) → B.Db → Result B.Db
new_persistent_store B db = fail_or (B.update_error db) (B.create_bucket_if_not_exists db)
