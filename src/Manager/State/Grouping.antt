-- ===== src/Manager/State/Grouping.antt =====
-- internal/app/manager/state.go: the lists of tasks that `rehydrate` builds.
use netbula.Base.{
  ℕ, String, ◌≡◌, refl, ◌↔◌, inl, inr, Bool, true, false, ◌&&◌, ◌||◌, some, List, [], ◌∷◌, ◌++◌,
  arith, contains, contains-append, append-Distinct, Distinct, ◌==◌, string_eq, nat_eq,
}
use netbula.Base.Dict.{Dict, insert, get_or, get_or-insert, lookup, keys, insert-Distinct}
use netbula.Base.Result.{ok, Result-cases}
use netbula.Uuids.{Uuids, IsUuids, to_string-injective}
use netbula.Manager.State.{tasks_of}
use netbula.Manager.State.Rehydrate.{group_tasks, add_workers}

module _ (U : Uuids) where
  -- Every key is the text that `String` writes for the id that `Parse` reads from it.
  abbrev pub Canonical {ℓ} : {V : Type ℓ} → Dict String V → Type 0
  Canonical [] = Unit
  Canonical ((k, v) ∷ es) = ((id : ℕ) → U.parse k ≡ ok id → k ≡ U.to_string id) × Canonical es

module _ (U : Uuids) (law : IsUuids U) where
  -- The entries link this task to this worker.
  unfoldable pub linked : ℕ → ℕ → Dict String ℕ → Bool
  linked w id [] = false
  linked w id ((k, v) ∷ es) = ((k == U.to_string id) && (v == w)) || linked w id es

  linked-missing :
      (w id : ℕ) (es : Dict String ℕ)
      → contains (keys es) (U.to_string id) ≡ false
      → linked w id es ≡ false
  unfolding linked keys contains
  linked-missing w id [] h = refl
  linked-missing w id ((k, v) ∷ es) h = ground (arith, linked-missing w id es)

  pub linked-lookup :
      (w id : ℕ) (es : Dict String ℕ)
      → Distinct (keys es)
      → (linked w id es ≡ true) ↔ (lookup (U.to_string id) es ≡ some w)
  unfolding linked lookup keys
  linked-lookup w id [] d = (λ h. ground arith, λ h. ground arith)
  linked-lookup w id ((k, v) ∷ es) d =
      ground (arith, linked-lookup w id es d.1, linked-missing w id es)

  pub group-contains :
      (es : Dict String ℕ) (m m' : Dict ℕ (List ℕ)) (w id : ℕ)
      → Canonical U es
      → group_tasks U es m ≡ ok m'
      → contains (tasks_of w m') id ≡ (contains (tasks_of w m) id || linked w id es)
  unfolding group_tasks linked contains
  group-contains [] m m' w id c h = ground arith
  group-contains ((k, v) ∷ es) m m' w id c h = elim (Result-cases (U.parse k)) [
    | inl (e, p) ↦ ground arith
    | inr (j, p) ↦
        let next = insert v (tasks_of v m ++ j ∷ []) m in
        ground (
          arith,
          group-contains es next m' w id c.1,
          get_or-insert w v [] (tasks_of v m ++ j ∷ []) m,
          contains-append (tasks_of v m) (j ∷ []) id,
          c.0 j p,
          to_string-injective U law j id,
        )
  ]

  -- What the loop needs of the lists built so far: no task twice, and none of those still to come.
  pub record Grouping (m : Dict ℕ (List ℕ)) (es : Dict String ℕ) : Type 0 where
    once : (w : ℕ) → Distinct (tasks_of w m)
    rows : Distinct (keys m)
    ahead :
        (w id : ℕ) → contains (tasks_of w m) id ≡ true → contains (keys es) (U.to_string id) ≡ false

  pub no_groups : (es : Dict String ℕ) → Grouping [] es
  unfolding get_or keys contains
  no_groups es = record { once = λ w. tt; rows = tt; ahead = λ w id h. cc }

  group-step :
      (k : String) (v j : ℕ) (es : Dict String ℕ) (m : Dict ℕ (List ℕ))
      → k ≡ U.to_string j
      → contains (keys es) k ≡ false
      → Grouping m ((k, v) ∷ es)
      → Grouping (insert v (tasks_of v m ++ j ∷ []) m) es
  unfolding keys contains
  group-step k v j es m e d g = record {
    once = λ w. ground (
      arith,
      g.once w,
      get_or-insert w v [] (tasks_of v m ++ j ∷ []) m,
      append-Distinct (tasks_of v m) j (g.once v),
      g.ahead v j,
    );
    rows = insert-Distinct v (tasks_of v m ++ j ∷ []) m g.rows;
    ahead = λ w id h. ground (
      arith,
      get_or-insert w v [] (tasks_of v m ++ j ∷ []) m,
      contains-append (tasks_of v m) (j ∷ []) id,
      g.ahead w id,
    );
  }

  pub group-Grouping :
      (es : Dict String ℕ) (m m' : Dict ℕ (List ℕ))
      → Canonical U es
      → Distinct (keys es)
      → group_tasks U es m ≡ ok m'
      → Grouping m es
      → ((w : ℕ) → Distinct (tasks_of w m')) × Distinct (keys m')
  unfolding group_tasks keys
  group-Grouping [] m m' c d h g = (λ w. ground (arith, g.once w), ground (arith, g.rows))
  group-Grouping ((k, v) ∷ es) m m' c d h g = elim (Result-cases (U.parse k)) [
    | inl (e, p) ↦ absurd (ground arith)
    | inr (j, p) ↦
        group-Grouping es (insert v (tasks_of v m ++ j ∷ []) m) m' c.1 d.1 (ground arith)
          (group-step k v j es m (c.0 j p) d.0 g)
  ]

  -- The names add workers without tasks, and change no list.
  pub add_workers-tasks :
      (es : Dict String String) (m m' : Dict ℕ (List ℕ))
      → add_workers U es m ≡ ok m'
      → Distinct (keys m)
      → ((w : ℕ) → tasks_of w m' ≡ tasks_of w m) × Distinct (keys m')
  unfolding add_workers
  add_workers-tasks [] m m' h d = (λ w. ground arith, ground arith)
  add_workers-tasks ((k, n) ∷ es) m m' h d = elim (Result-cases (U.parse k)) [
    | inl (e, p) ↦ absurd (ground arith)
    | inr (v, p) ↦
        let next = insert v (tasks_of v m) m in
        let rest =
          add_workers-tasks es next m' (ground arith) (insert-Distinct v (tasks_of v m) m d) in
        (λ w. ground (arith, rest.0 w, get_or-insert w v [] (tasks_of v m) m), rest.1)
  ]
