-- ===== src/Scheduler/RoundRobin.antt =====
-- internal/scheduler/round_robin.go.
pub mod Rotation
use netbula.Base.{
  ℕ, zero, suc, ◌+◌, ◌%◌, String, Bool, Option, none, some, List, [], ◌∷◌, length, ◌==◌, nat_eq,
  if◌then◌else◌,
}
use netbula.Base.Dict.{Dict, insert}
use netbula.Floats.{Floats}
use netbula.Task.{Task}
use netbula.Node.{Node}
use netbula.Scheduler.{Scheduler}
use netbula.Scheduler.Epvm.{score_of}

-- The index is a Go `int` that starts at 0 and is never set below it.
pub record RoundRobin : Type 0 where
  pub name : String
  pub last_worker_idx : ℕ

unfoldable pub select_candidate_nodes : Task → List Node → List Node
select_candidate_nodes t nodes = nodes

module _ (F : Floats) where
  -- The loop over the nodes from index `idx` on.
  unfoldable pub score_from : ℕ → ℕ → List Node → Dict ℕ ℕ → Dict ℕ ℕ
  score_from new_worker_idx idx [] scores = scores
  score_from new_worker_idx idx (node ∷ nodes) scores = score_from new_worker_idx (suc idx) nodes (
      insert node.worker_uuid (if idx == new_worker_idx then F.literal "0.1" else F.literal "1.0")
        scores)

  -- With no node at all, the remainder by zero is a panic.
  unfoldable pub score : RoundRobin → Task → List Node → Option (RoundRobin × Dict ℕ ℕ)
  unfolding score_from
  score r t [] = none
  score r t (node ∷ nodes) =
      let new_worker_idx = (r.last_worker_idx + 1) % length (node ∷ nodes) in
      some (
        record r { last_worker_idx = new_worker_idx },
        score_from new_worker_idx 0 (node ∷ nodes) [],
      )

  -- The loop after its first round, with `bestNode` and `lowestScore`.
  unfoldable pub pick_from : Dict ℕ ℕ → Node → ℕ → List Node → Node
  pick_from scores best lowest_score [] = best
  pick_from scores best lowest_score (node ∷ nodes) =
      let lower = F.lt (score_of F scores node) lowest_score in
      pick_from scores (if lower then node else best)
        (if lower then score_of F scores node else lowest_score) nodes

  unfoldable pub pick : Dict ℕ ℕ → List Node → Option Node
  unfolding pick_from
  pick scores [] = none
  pick scores (node ∷ nodes) = some (pick_from scores node (score_of F scores node) nodes)

  abbrev pub round_robin : Scheduler
  round_robin = record {
    State = RoundRobin;
    select_candidate_nodes = select_candidate_nodes;
    score = score;
    pick = pick;
  }
