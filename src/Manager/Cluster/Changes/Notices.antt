-- ===== src/Manager/Cluster/Changes/Notices.antt =====
-- internal/app/manager/cluster.go: what the notices of `detectNodeChanges` say over several updates.
use netbula.Base.{
  ℕ, ◌≡◌, refl, ap, ◌∙◌, inl, inr, Bool, true, false, not, ◌&&◌, ◌||◌, some, List, [], ◌∷◌, ◌++◌,
  arith, Distinct, ◌==◌, nat_eq, ==-eq, ==-refl, if◌then◌else◌, Option-cases,
}
use netbula.Base.Dict.{Dict, lookup, keys}
use netbula.Node.{Node}
use netbula.Uuids.{Uuids}
use netbula.Manager.State.{Stores, MappingStorage, get_worker_ids}
use netbula.Manager.Cluster.{
  Net, HttpClientCluster, new_cluster, get_nodes, collect_nodes, update_worker_nodes,
}
use netbula.Manager.Cluster.Changes.Maps.{
  has_node, is_some, Named, by_uuid-Named, by_uuid-Distinct, lookup-by_uuid, contains-lookup,
}
use netbula.Manager.Cluster.Changes.{
  Notice, node_disappeared, node_appeared, by_uuid, missing, detect_node_changes,
}

-- Is the node of this worker up, to a reader of the notices?
abbrev pub is_up : ℕ → Bool → List Notice → Bool
is_up w up [] = up
is_up w up (node_disappeared n ∷ rest) = is_up w (if n.worker_uuid == w then false else up) rest
is_up w up (node_appeared n ∷ rest) = is_up w (if n.worker_uuid == w then true else up) rest

-- Does each notice about this worker tell something new?
abbrev pub is_news : ℕ → Bool → List Notice → Bool
is_news w up [] = true
is_news w up (node_disappeared n ∷ rest) =
    let later = is_news w (if n.worker_uuid == w then false else up) rest in
    (if n.worker_uuid == w then up else true) && later
is_news w up (node_appeared n ∷ rest) =
    let later = is_news w (if n.worker_uuid == w then true else up) rest in
    (if n.worker_uuid == w then not up else true) && later

is_up-append :
    (w : ℕ) (up : Bool) (a b : List Notice) → is_up w up (a ++ b) ≡ is_up w (is_up w up a) b
is_up-append w up [] b = refl
is_up-append w up (node_disappeared n ∷ a) b =
    is_up-append w (if n.worker_uuid == w then false else up) a b
is_up-append w up (node_appeared n ∷ a) b =
    is_up-append w (if n.worker_uuid == w then true else up) a b

is_up-disappeared :
    (w : ℕ) (up : Bool) (other map : Dict ℕ Node)
    → Named map
    → is_up w up (missing node_disappeared other map)
      ≡ (up && (not (is_some (lookup w map)) || is_some (lookup w other)))
unfolding missing lookup
is_up-disappeared w up other [] named = ground arith
is_up-disappeared w up other ((id, n) ∷ map) named = elim (Option-cases (lookup id other)) [
  | inl e ↦ ground (
    arith,
    named.0,
    ==-eq id w,
    is_up-disappeared w (if n.worker_uuid == w then false else up) other map named.1,
  )
  | inr (m, e) ↦ ground (arith, ==-eq id w, is_up-disappeared w up other map named.1)
]

is_up-appeared :
    (w : ℕ) (up : Bool) (other map : Dict ℕ Node)
    → Named map
    → is_up w up (missing node_appeared other map)
      ≡ (up || (is_some (lookup w map) && not (is_some (lookup w other))))
unfolding missing lookup
is_up-appeared w up other [] named = ground arith
is_up-appeared w up other ((id, n) ∷ map) named = elim (Option-cases (lookup id other)) [
  | inl e ↦ ground (
    arith,
    named.0,
    ==-eq id w,
    is_up-appeared w (if n.worker_uuid == w then true else up) other map named.1,
  )
  | inr (m, e) ↦ ground (arith, ==-eq id w, is_up-appeared w up other map named.1)
]

is_news-append :
    (w : ℕ) (up : Bool) (a b : List Notice)
    → is_news w up (a ++ b) ≡ (is_news w up a && is_news w (is_up w up a) b)
is_news-append w up [] b = refl
is_news-append w up (node_disappeared n ∷ a) b =
    ground (arith, is_news-append w (if n.worker_uuid == w then false else up) a b)
is_news-append w up (node_appeared n ∷ a) b =
    ground (arith, is_news-append w (if n.worker_uuid == w then true else up) a b)

is_news-disappeared :
    (w : ℕ) (up : Bool) (other map : Dict ℕ Node)
    → Named map
    → Distinct (keys map)
    → (is_some (lookup w map) ≡ true → up ≡ true)
    → is_news w up (missing node_disappeared other map) ≡ true
unfolding missing lookup keys
is_news-disappeared w up other [] named distinct known = refl
is_news-disappeared w up other ((id, n) ∷ map) named distinct known =
    let absent = contains-lookup w map in
    let rest =
      is_news-disappeared w up other map named.1 distinct.1
        λ h. ground (arith, known, ==-eq id w, absent) in
    elim (Option-cases (lookup id other)) [
      | inr (m, e) ↦ ground (arith, rest)
      | inl e ↦
          let later =
            is_news-disappeared w (if n.worker_uuid == w then false else up) other map named.1
              distinct.1 λ h. ground (arith, known, named.0, ==-eq id w, absent) in
          ground (arith, later, known, named.0, ==-eq id w, ==-refl w)
    ]

is_news-appeared :
    (w : ℕ) (up : Bool) (other map : Dict ℕ Node)
    → Named map
    → Distinct (keys map)
    → (is_some (lookup w map) ≡ true → is_some (lookup w other) ≡ false → up ≡ false)
    → is_news w up (missing node_appeared other map) ≡ true
unfolding missing lookup keys
is_news-appeared w up other [] named distinct known = refl
is_news-appeared w up other ((id, n) ∷ map) named distinct known =
    let absent = contains-lookup w map in
    let rest =
      is_news-appeared w up other map named.1 distinct.1
        λ h. ground (arith, known, ==-eq id w, absent) in
    elim (Option-cases (lookup id other)) [
      | inr (m, e) ↦ ground (arith, rest)
      | inl e ↦
          let later =
            is_news-appeared w (if n.worker_uuid == w then true else up) other map named.1
              distinct.1 λ h. ground (arith, known, named.0, ==-eq id w, absent) in
          ground (arith, later, known, named.0, ==-eq id w, ==-refl w)
    ]

detect_node_changes-is_up :
    (w : ℕ) (old_nodes new_nodes : List Node)
    → is_up w (has_node w old_nodes) (detect_node_changes old_nodes new_nodes)
      ≡ has_node w new_nodes
unfolding detect_node_changes lookup
detect_node_changes-is_up w old_nodes new_nodes =
    let old = by_uuid [] old_nodes in
    let new = by_uuid [] new_nodes in
    let up = has_node w old_nodes in
    let gone = missing node_disappeared new old in
    let gone_is_up = is_up-disappeared w up new old (by_uuid-Named [] old_nodes tt) in
    is_up-append w up gone (missing node_appeared old new)
    ∙ is_up-appeared w (is_up w up gone) old new (by_uuid-Named [] new_nodes tt)
    ∙ ground (arith, gone_is_up, lookup-by_uuid w [] old_nodes, lookup-by_uuid w [] new_nodes)

detect_node_changes-is_news :
    (w : ℕ) (old_nodes new_nodes : List Node)
    → is_news w (has_node w old_nodes) (detect_node_changes old_nodes new_nodes) ≡ true
unfolding detect_node_changes lookup keys
detect_node_changes-is_news w old_nodes new_nodes =
    let old = by_uuid [] old_nodes in
    let new = by_uuid [] new_nodes in
    let up = has_node w old_nodes in
    let gone = missing node_disappeared new old in
    let old_named = by_uuid-Named [] old_nodes tt in
    let gone_is_up = is_up-disappeared w up new old old_named in
    let found = lookup-by_uuid w [] old_nodes in
    let first =
      is_news-disappeared w up new old old_named (by_uuid-Distinct [] old_nodes tt)
        λ h. ground (arith, found) in
    let second =
      is_news-appeared w (is_up w up gone) old new (by_uuid-Named [] new_nodes tt)
        (by_uuid-Distinct [] new_nodes tt) λ h. λ k. ground (arith, found, gone_is_up) in
    is_news-append w up gone (missing node_appeared old new) ∙ ground (arith, first, second)

module _ (N : Net) (U : Uuids) (D : Stores) where
  -- The calls of the cluster since it was made. Between two updates the clients, the state of the
  -- manager and the network may change.
  pub data Watched : HttpClientCluster N → Type 0 where
    made : Watched (new_cluster N)
    joined :
        {cluster : HttpClientCluster N} (clients : Dict ℕ N.Client)
        → Watched cluster
        → Watched (record cluster { worker_client_map = clients })
    updated :
        {cluster : HttpClientCluster N} (state : MappingStorage D) (world world' : N.World)
        (cluster' : HttpClientCluster N)
        → Watched cluster
        → update_worker_nodes N U D state cluster world ≡ some (world', cluster')
        → Watched cluster'

  update_worker_nodes-notices :
      (state : MappingStorage D) (cluster cluster' : HttpClientCluster N) (world world' : N.World)
      → update_worker_nodes N U D state cluster world ≡ some (world', cluster')
      → cluster'.notices
        ≡ cluster.notices ++ detect_node_changes cluster.worker_nodes cluster'.worker_nodes
  unfolding update_worker_nodes get_nodes
  update_worker_nodes-notices state cluster cluster' world world' h =
      let ids = N.arrival world (get_worker_ids U D state) in
      elim (Option-cases (collect_nodes N U D state cluster ids world)) [
        | inl e ↦ absurd (ground arith)
        | inr ((next, nodes), e) ↦ ground arith
      ]

  -- Whoever reads the notices of `detectNodeChanges` from the start knows at each time exactly which
  -- workers have a node in the cluster, and each notice about a worker tells something new, whatever
  -- workers answer and in whatever order.
  pub watched_notices-is_up :
      (w : ℕ) (cluster : HttpClientCluster N)
      → Watched cluster
      → (is_up w false cluster.notices ≡ has_node w cluster.worker_nodes)
        × (is_news w false cluster.notices ≡ true)
  unfolding new_cluster
  watched_notices-is_up w _ made = (refl, refl)
  watched_notices-is_up w _ (joined {cluster} clients past) = watched_notices-is_up w cluster past
  watched_notices-is_up w _ (updated {cluster} state world world' cluster' past h) =
      let (known, news) = watched_notices-is_up w cluster past in
      let notices = cluster.notices in
      let later = detect_node_changes cluster.worker_nodes cluster'.worker_nodes in
      let told = update_worker_nodes-notices state cluster cluster' world world' h in
      (
        ap (is_up w false) told
            ∙ is_up-append w false notices later
            ∙ ap (λ up. is_up w up later) known
            ∙ detect_node_changes-is_up w cluster.worker_nodes cluster'.worker_nodes,
        ap (is_news w false) told
            ∙ is_news-append w false notices later
            ∙ ap (λ b. b && is_news w (is_up w false notices) later) news
            ∙ ap (λ up. is_news w up later) known
            ∙ detect_node_changes-is_news w cluster.worker_nodes cluster'.worker_nodes,
      )
