-- ===== src/Base/Dict.antt =====
-- Go's maps, as association lists.
use mathlib.Core.Path.{◌≡◌, refl}
use mathlib.Core.Bool.{true, false}
use mathlib.Core.Option.{Option, none, some}
use mathlib.Core.List.{List, [], ◌∷◌}
use native.Mathlib.Omega.{arith}
use netbula.Base.Equality.{Eq, ◌==◌, if◌then◌else◌}
use netbula.Base.Lists.{contains, Distinct}

abbrev pub Dict {ℓ κ} : Type ℓ → Type κ → Type (ℓ ⊔ κ)
Dict K V = List (K × V)

unfoldable pub keys {ℓ κ} : {K : Type ℓ} {V : Type κ} → Dict K V → List K
keys [] = []
keys ((k, v) ∷ d) = k ∷ keys d

unfoldable pub values {ℓ κ} : {K : Type ℓ} {V : Type κ} → Dict K V → List V
values [] = []
values ((k, v) ∷ d) = v ∷ values d

module _ {ℓ κ} {K : Type ℓ} {V : Type κ} ⦃e : Eq K⦄ where
  -- `v, ok := m[k]`
  unfoldable pub lookup : K → Dict K V → Option V
  lookup k [] = none
  lookup k ((j, v) ∷ d) = if j == k then some v else lookup k d

  -- `m[k] = v`
  unfoldable pub insert : K → V → Dict K V → Dict K V
  insert k v [] = (k, v) ∷ []
  insert k v ((j, w) ∷ d) = if j == k then (k, v) ∷ d else (j, w) ∷ insert k v d

  -- `m[k]`, with the zero value for a missing key.
  unfoldable pub get_or : K → V → Dict K V → V
  get_or k z [] = z
  get_or k z ((j, v) ∷ d) = if j == k then v else get_or k z d

  pub lookup-insert :
      (j k : K) (v : V) (d : Dict K V)
      → lookup j (insert k v d) ≡ (if k == j then some v else lookup j d)
  unfolding lookup insert
  lookup-insert j k v [] = ground arith
  lookup-insert j k v ((i, w) ∷ d) = ground (arith, lookup-insert j k v d)

  pub get_or-insert :
      (j k : K) (z v : V) (d : Dict K V)
      → get_or j z (insert k v d) ≡ (if k == j then v else get_or j z d)
  unfolding get_or insert
  get_or-insert j k z v [] = ground arith
  get_or-insert j k z v ((i, w) ∷ d) = ground (arith, get_or-insert j k z v d)

  pub keys-insert :
      (k : K) (v : V) (d : Dict K V) (j : K)
      → contains (keys (insert k v d)) j ≡ (if k == j then true else contains (keys d) j)
  unfolding keys insert contains
  keys-insert k v [] j = ground arith
  keys-insert k v ((i, w) ∷ d) j = ground (arith, keys-insert k v d j)

  pub insert-Distinct :
      (k : K) (v : V) (d : Dict K V) → Distinct (keys d) → Distinct (keys (insert k v d))
  unfolding keys insert contains
  insert-Distinct k v [] u = (refl, tt)
  insert-Distinct k v ((j, w) ∷ d) u =
      ground (arith, insert-Distinct k v d u.1, keys-insert k v d j)

  -- A missing key reads as the zero value.
  pub get_or-missing :
      (k : K) (z : V) (d : Dict K V) → contains (keys d) k ≡ false → get_or k z d ≡ z
  unfolding keys get_or contains
  get_or-missing k z [] h = refl
  get_or-missing k z ((j, v) ∷ d) h = ground (arith, get_or-missing k z d)
