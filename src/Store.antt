-- ===== src/Store.antt =====
-- internal/store/store.go: the interface of the stores, with the laws that its clients rely on.
pub mod Memory
pub mod Persistent
use netbula.Base.{
  ℕ, String, ◌≡◌, ◌⊎◌, Option, none, some, List, length, Distinct, ◌==◌, string_eq, if◌then◌else◌,
}
use netbula.Base.Result.{Err, Result, ok}
use netbula.Base.Dict.{Dict, lookup, keys, values}

-- `Get` returns a pointer and an error, and the pointer may be set although the error is;
-- `write_through` is what an assignment through that pointer does to the store. A listing that
-- fails is given up by every caller, so its partial list is left out.
pub record Store (V : Type 0) : Type 1 where
  pub State : Type 0
  pub put : String → V → State → Result State
  pub get : String → State → Option V × Option Err
  pub list : State → Result (List V)
  pub entries : State → Result (Dict String V)
  pub count : State → Result ℕ
  pub write_through : String → V → State → State

-- The laws, of the stores whose contents are sound and whose database is open: `IsValid`.
pub record IsLawful {V : Type 0} (S : Store V) (IsValid : S.State → Type 0) : Type 0 where
  pub put-IsValid :
      (k : String) (v : V) (s s' : S.State) → S.put k v s ≡ ok s' → IsValid s → IsValid s'
  pub get-put :
      (k j : String) (v : V) (s s' : S.State)
      → S.put k v s ≡ ok s'
      → IsValid s
      → S.get j s' ≡ (if k == j then (some v, none) else S.get j s)
  pub get-entries :
      (k : String) (s : S.State) (es : Dict String V)
      → S.entries s ≡ ok es
      → IsValid s
      → S.get k s ≡ (lookup k es, none)
  pub entries-Distinct :
      (s : S.State) (es : Dict String V) → S.entries s ≡ ok es → IsValid s → Distinct (keys es)
  pub list-entries :
      (s : S.State) (es : Dict String V)
      → S.entries s ≡ ok es
      → IsValid s
      → (S.list s ≡ ok (values es)) × (S.count s ≡ ok (length es))
  pub entries-list :
      (s : S.State) (vs : List V)
      → S.list s ≡ ok vs
      → IsValid s
      → (es : Dict String V) × (S.entries s ≡ ok es)

-- What an assignment through the pointer of `Get` does to the store: nothing, or what a `Put` does.
pub record IsHanding {V : Type 0} (S : Store V) (IsValid : S.State → Type 0) : Type 0 where
  pub write :
      (k : String) (v old : V) (s : S.State)
      → IsValid s
      → S.get k s ≡ (some old, none)
      → (S.write_through k v s ≡ s)
        ⊎ (IsValid (S.write_through k v s)
            × ((j : String)
                → S.get j (S.write_through k v s) ≡ (if k == j then (some v, none) else S.get j s)))

-- A store that does not fail.
pub record Reliable {V : Type 0} (S : Store V) : Type 0 where
  pub writes : (k : String) (v : V) (s : S.State) → (s' : S.State) × (S.put k v s ≡ ok s')
  pub reads : (k : String) (s : S.State) → (S.get k s).1 ≡ none
