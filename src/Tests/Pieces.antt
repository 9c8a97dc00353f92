-- ===== src/Tests/Pieces.antt =====
-- Runs of the tasks, the stores and the schedulers.
use netbula.Base.{
  ℕ, ◌<◌, String, ◌≡◌, ◌≢◌, ◌⊎◌, refl, ◌↔◌, true, none, some, List, [], ◌∷◌, Distinct, contains,
  string_eq, nat_eq, length, get_elem?,
}
use netbula.Base.Int.{pos}
use netbula.Base.Dict.{Dict, keys}
use netbula.Base.Result.{Err, ok, err}
use netbula.Task.{State, pending, scheduled, completed, valid_state_transition}
use netbula.Task.Text.{
  to_int, state_to_string, marshal_json, unmarshal_json, unmarshal_json-marshal_json,
}
use netbula.Task.Lifecycle.{Allowed, valid_state_transition_iff}
use netbula.Store.{IsLawful}
use netbula.Store.Persistent.{persistent_store, persistent_store-IsLawful}
use netbula.Node.{Node}
use netbula.Scheduler.Epvm.{cost}
use netbula.Scheduler.Epvm.Choice.{epvm_choice, Best, chosen, uuids}
use netbula.Scheduler.RoundRobin.{RoundRobin, score, pick}
use netbula.Scheduler.RoundRobin.Rotation.{round_robin_turn}
use netbula.Tests.Samples.{
  plain, plain-IsOrdered, bucket, bucket-IsBolt, verbatim, verbatim-IsCodec, bare,
  bare-IsStringJson, job, node,
}

abbrev Unique : {V : Type 0} → Dict String V → Type 0
Unique db = Distinct (keys db)

persistent_store-IsLawful_example :
    IsLawful (persistent_store (bucket none) verbatim) (λ db. (bucket none).view_error db ≡ none)
persistent_store-IsLawful_example =
    persistent_store-IsLawful (bucket none) verbatim (bucket-IsBolt none) verbatim-IsCodec

empty-Distinct : Distinct (keys {K = String} {V = String} [])
unfolding keys
empty-Distinct = tt

unmarshal_json-marshal_json_example :
    ((s : State) × (pos 5 ≡ to_int s) × (unmarshal_json bare "UNKNOWN" ≡ ok s))
    ⊎ (((s : State) → pos 5 ≢ to_int s) × (e : Err) × (unmarshal_json bare "UNKNOWN" ≡ err e))
unfolding marshal_json state_to_string nat_eq
unmarshal_json-marshal_json_example =
    unmarshal_json-marshal_json bare (pos 5) "UNKNOWN" bare-IsStringJson refl

valid_state_transition_iff_example :
    (valid_state_transition scheduled completed ≡ true) ↔ Allowed scheduled completed
valid_state_transition_iff_example = valid_state_transition_iff scheduled completed

abbrev two_nodes : List Node
two_nodes = node 5 100 ∷ node 6 200 ∷ []

two_nodes-Distinct : Distinct (uuids plain two_nodes)
unfolding contains nat_eq
two_nodes-Distinct = (refl, (refl, tt))

epvm_choice_example : Best plain (job pending) two_nodes (chosen plain (job pending) two_nodes)
unfolding cost
epvm_choice_example =
    epvm_choice plain plain-IsOrdered (job pending) two_nodes two_nodes-Distinct (refl, (refl, tt))

abbrev turn : RoundRobin
turn = record { name = "roundrobin"; last_worker_idx = 0 }

round_robin_turn_example :
    (scores : Dict ℕ ℕ) × (score plain turn (job pending) two_nodes
      ≡ some (record turn { last_worker_idx = 1 }, scores))
    × (pick plain scores two_nodes ≡ get_elem? two_nodes 1)
    × (1 < length two_nodes)
round_robin_turn_example =
    round_robin_turn plain plain-IsOrdered turn (job pending) (node 5 100) (node 6 200 ∷ [])
      two_nodes-Distinct
