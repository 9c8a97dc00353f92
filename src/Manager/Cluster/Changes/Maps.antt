-- ===== src/Manager/Cluster/Changes/Maps.antt =====
-- internal/app/manager/cluster.go: the maps that `detectNodeChanges` fills.
use netbula.Base.{
  ℕ, ◌≡◌, refl, Bool, true, false, ◌||◌, Option, none, some, List, [], ◌∷◌, arith, contains,
  Distinct, ◌==◌, nat_eq,
}
use netbula.Base.Dict.{Dict, lookup, insert, keys, lookup-insert, insert-Distinct}
use netbula.Node.{Node}
use netbula.Manager.Cluster.Changes.{by_uuid}

abbrev pub has_node : ℕ → List Node → Bool
has_node w [] = false
has_node w (n ∷ nodes) = (n.worker_uuid == w) || has_node w nodes

abbrev pub is_some {ℓ} : {A : Type ℓ} → Option A → Bool
is_some none = false
is_some (some a) = true

-- Each node stands under the id of its worker.
abbrev pub Named : Dict ℕ Node → Type 0
Named [] = Unit
Named ((id, n) ∷ map) = (n.worker_uuid ≡ id) × Named map

insert-Named : (n : Node) (map : Dict ℕ Node) → Named map → Named (insert n.worker_uuid n map)
unfolding insert
insert-Named n [] named = (refl, tt)
insert-Named n ((j, m) ∷ map) named = ground (arith, insert-Named n map)

pub by_uuid-Named : (map : Dict ℕ Node) (nodes : List Node) → Named map → Named (by_uuid map nodes)
unfolding by_uuid
by_uuid-Named map [] named = named
by_uuid-Named map (n ∷ nodes) named =
    by_uuid-Named (insert n.worker_uuid n map) nodes (insert-Named n map named)

pub lookup-by_uuid :
    (w : ℕ) (map : Dict ℕ Node) (nodes : List Node)
    → is_some (lookup w (by_uuid map nodes)) ≡ (has_node w nodes || is_some (lookup w map))
unfolding by_uuid
lookup-by_uuid w map [] = refl
lookup-by_uuid w map (n ∷ nodes) = ground (
  arith,
  lookup-by_uuid w (insert n.worker_uuid n map) nodes,
  lookup-insert w n.worker_uuid n map,
)

pub by_uuid-Distinct :
    (map : Dict ℕ Node) (nodes : List Node)
    → Distinct (keys map)
    → Distinct (keys (by_uuid map nodes))
unfolding by_uuid
by_uuid-Distinct map [] distinct = distinct
by_uuid-Distinct map (n ∷ nodes) distinct =
    by_uuid-Distinct (insert n.worker_uuid n map) nodes
      (insert-Distinct n.worker_uuid n map distinct)

pub contains-lookup : (w : ℕ) (map : Dict ℕ Node) → contains (keys map) w ≡ is_some (lookup w map)
unfolding keys contains lookup
contains-lookup w [] = refl
contains-lookup w ((id, n) ∷ map) = ground (arith, contains-lookup w map)
