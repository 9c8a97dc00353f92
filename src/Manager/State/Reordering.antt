-- ===== src/Manager/State/Reordering.antt =====
-- internal/app/manager/state.go: the number of active tasks in a list, in any order.
use netbula.Base.{
  ℕ, ◌+◌, ◌≡◌, refl, inl, inr, true, false, not, ◌&&◌, List, [], ◌∷◌, arith, contains, Distinct,
  nat_eq, ◌==◌, ==-eq, ==-refl, if◌then◌else◌, Bool-cases,
}
use netbula.Uuids.{Uuids}
use netbula.Manager.State.{Stores}
use netbula.Manager.State.Invariant.{active, is_counted, bit}

-- The list without this item.
without : ℕ → List ℕ → List ℕ
without x [] = []
without x (y ∷ ys) = let rest = without x ys in if y == x then rest else y ∷ rest

contains-without :
    (x j : ℕ) (ys : List ℕ) → contains (without x ys) j ≡ (contains ys j && not (x == j))
unfolding without contains
contains-without x j [] = refl
contains-without x j (y ∷ ys) = ground (arith, contains-without x j ys)

without-Distinct : (x : ℕ) (ys : List ℕ) → Distinct ys → Distinct (without x ys)
unfolding without
without-Distinct x [] d = tt
without-Distinct x (y ∷ ys) d = ground (arith, without-Distinct x ys d.1, contains-without x y ys)

module _ (U : Uuids) (D : Stores) (db : D.tasks.State) where
  active-absent :
      (x : ℕ) (ys : List ℕ)
      → contains ys x ≡ false
      → active U D db (without x ys) ≡ active U D db ys
  unfolding without active contains
  active-absent x [] h = refl
  active-absent x (y ∷ ys) h = ground (arith, active-absent x ys)

  active-without :
      (x : ℕ) (ys : List ℕ)
      → Distinct ys
      → contains ys x ≡ true
      → active U D db ys
        ≡ active U D db (without x ys) + bit (is_counted (D.tasks.get (U.to_string x) db))
  unfolding without active contains
  active-without x [] d h = absurd (ground arith)
  active-without x (y ∷ ys) d h = elim (Bool-cases (y == x)) [
    | inl e ↦ ground (arith, ==-eq y x e, active-absent x ys)
    | inr e ↦ ground (arith, active-without x ys d.1)
  ]

  -- The count does not depend on the order.
  pub active-same :
      (xs ys : List ℕ)
      → Distinct xs
      → Distinct ys
      → ((j : ℕ) → contains xs j ≡ contains ys j)
      → active U D db xs ≡ active U D db ys
  unfolding active contains
  active-same [] [] d e same = refl
  active-same [] (y ∷ ys) d e same = absurd (ground (arith, same y, ==-refl y))
  active-same (x ∷ xs) ys d e same =
      let rest =
        active-same xs (without x ys) d.1 (without-Distinct x ys e)
          λ j. ground (arith, same j, contains-without x j ys, d.0) in
      ground (arith, rest, active-without x ys e, same x, ==-refl x)
