-- ===== src/Store/Memory.antt =====
-- internal/store/in_memory_task_store.go: a store in a map of pointers. The order in which Go
-- ranges over a map is not specified; here it is the order of the association list, and no
-- statement names it.
use netbula.Base.{
  ℕ, String, ◌≡◌, refl, sym, subst, inr, ==-eq, ==-refl, Option, none, some, List, [], ◌∷◌, arith,
  length, Distinct, ◌==◌, string_eq, if◌then◌else◌,
}
use netbula.Base.Result.{Err, Result, ok}
use netbula.Base.Dict.{Dict, lookup, insert, keys, values, lookup-insert, insert-Distinct}
use netbula.Store.{Store, IsLawful, IsHanding}

module _ {V : Type 0} where
  unfoldable pub put : String → V → Dict String V → Result (Dict String V)
  put key value db = ok (insert key value db)

  unfoldable pub get : String → Dict String V → Option V × Option Err
  get key db = (lookup key db, none)

  -- The loop of `List`.
  unfoldable pub list : Dict String V → Result (List V)
  list db = ok (values db)

  unfoldable pub entries : Dict String V → Result (Dict String V)
  entries db = ok db

  unfoldable pub count : Dict String V → Result ℕ
  count db = ok (length db)

  -- The map holds the very object that `Get` hands out.
  unfoldable pub write_through : String → V → Dict String V → Dict String V
  write_through key value [] = []
  write_through key value ((k, v) ∷ db) =
      if k == key then (k, value) ∷ db else (k, v) ∷ write_through key value db

unfoldable pub new_in_memory_store : {V : Type 0} → Dict String V
new_in_memory_store = []

abbrev pub memory_store : (V : Type 0) → Store V
memory_store V = record {
  State = Dict String V;
  put = put;
  get = get;
  list = list;
  entries = entries;
  count = count;
  write_through = write_through;
}

module _ {V : Type 0} (k : String) (v : V) (s s' : Dict String V) where
  put-Distinct : put k v s ≡ ok s' → Distinct (keys s) → Distinct (keys s')
  unfolding put
  put-Distinct h d = ground (arith, insert-Distinct k v s d)

  get-put :
      (j : String) → put k v s ≡ ok s' → get j s' ≡ (if k == j then (some v, none) else get j s)
  unfolding put get
  get-put j h = ground (arith, lookup-insert j k v s)

-- The in-memory store meets the interface: its map holds each key once, `Get` returns what the last
-- `Put` under that key wrote, and the listings agree with `Get`.
pub memory_store-IsLawful : (V : Type 0) → IsLawful (memory_store V) (λ db. Distinct (keys db))
memory_store-IsLawful V = record {
  put-IsValid = put-Distinct;
  get-put = λ k j v s s' h d. get-put k v s s' j h;
  get-entries = λ k s es h d. (unfold get entries in ground arith);
  entries-Distinct = λ s es h d. (unfold entries in ground arith);
  list-entries = λ s es h d. (unfold list entries count in ground arith);
  entries-list = λ s vs h d. (s, unfold entries in refl);
}

module _ {V : Type 0} where
  write_through-keys :
      (k : String) (v : V) (db : Dict String V) → keys (write_through k v db) ≡ keys db
  unfolding write_through keys
  write_through-keys k v [] = refl
  write_through-keys k v ((j, w) ∷ db) = ground (arith, write_through-keys k v db)

  get-write_through :
      (k j : String) (v old : V) (db : Dict String V)
      → lookup k db ≡ some old
      → lookup j (write_through k v db) ≡ (if k == j then some v else lookup j db)
  unfolding write_through lookup
  get-write_through k j v old [] h = ground arith
  get-write_through k j v old ((i, w) ∷ db) h =
      ground (arith, get-write_through k j v old db, ==-eq i k, ==-refl k)

pub memory_store-IsHanding : (V : Type 0) → IsHanding (memory_store V) (λ db. Distinct (keys db))
memory_store-IsHanding V = record {
  write = λ k v old s d g. inr (
    subst (λ ks. Distinct ks) (sym (write_through-keys k v s)) d,
    λ j. (unfold get in ground (arith, get-write_through k j v old s)),
  );
}
