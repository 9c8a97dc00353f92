-- ===== src/Manager/Cluster/Changes.antt =====
-- internal/app/manager/cluster.go: `detectNodeChanges`, by which `UpdateWorkerNodes` tells which
-- nodes came and went.
pub mod Maps
pub mod Notices
use netbula.Base.{ℕ, none, some, List, [], ◌∷◌, ◌++◌, nat_eq}
use netbula.Base.Dict.{Dict, lookup, insert}
use netbula.Node.{Node}

-- The calls of the logger in `detectNodeChanges`.
pub data Notice : Type 0 where
  node_disappeared : Node → Notice
  node_appeared : Node → Notice

-- The two loops that fill the maps.
unfoldable pub by_uuid : Dict ℕ Node → List Node → Dict ℕ Node
by_uuid map [] = map
by_uuid map (n ∷ nodes) = by_uuid (insert n.worker_uuid n map) nodes

-- The two loops that range over the maps: a notice for each entry whose key the other map lacks.
unfoldable pub missing : (Node → Notice) → Dict ℕ Node → Dict ℕ Node → List Notice
missing tell other [] = []
missing tell other ((id, n) ∷ map) = elim (lookup id other) [
  | none ↦ tell n ∷ missing tell other map
  | some _ ↦ missing tell other map
]

-- The first argument is what `GetNodes` returns.
unfoldable pub detect_node_changes : List Node → List Node → List Notice
unfolding by_uuid missing
detect_node_changes old_nodes new_nodes =
    let old_nodes_map = by_uuid [] old_nodes in
    let new_nodes_map = by_uuid [] new_nodes in
    missing node_disappeared new_nodes_map old_nodes_map
    ++ missing node_appeared old_nodes_map new_nodes_map
