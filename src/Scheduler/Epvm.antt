-- ===== src/Scheduler/Epvm.antt =====
-- internal/scheduler/epvm.go: the scheduler that the manager runs.
pub mod Picking
pub mod Choice
use netbula.Base.{
  ℕ, String, Bool, true, false, Option, none, some, List, [], ◌∷◌, ◌++◌, nat_eq, if◌then◌else◌,
}
use netbula.Base.Int.{ℤ, leb_ℤ}
use netbula.Base.Dict.{Dict, insert, get_or}
use netbula.Floats.{Floats}
use netbula.Task.{Task}
use netbula.Node.{Node}
use netbula.Scheduler.{Scheduler}

unfoldable pub check_disk : Task → ℤ → Bool
check_disk t disk_available = leb_ℤ t.disk disk_available

module _ (F : Floats) where
  abbrev pub lieb : ℕ
  lieb = F.literal "1.53960071783900203869"

  unfoldable pub disk_available : Node → ℕ
  disk_available node =
      F.mul (F.sub (F.literal "1") (F.mul (F.literal "0.01") node.disk_allocated_percent))
        (F.of_int node.disk)

  abbrev pub fits : Task → Node → Bool
  fits t node = check_disk t (F.to_int (disk_available node))

  -- The loop, with the candidates found so far.
  unfoldable pub select_from : Task → List Node → List Node → List Node
  select_from t [] candidates = candidates
  select_from t (node ∷ nodes) candidates =
      select_from t nodes (if fits t node then candidates ++ node ∷ [] else candidates)

  unfoldable pub select_candidate_nodes : Task → List Node → List Node
  unfolding select_from
  select_candidate_nodes t nodes = select_from t nodes []

  -- What placing the task on the node costs.
  unfoldable pub cost : Task → Node → ℕ
  cost t node =
      let cpu_load = F.div node.cpu_average_load (F.of_int node.cores) in
      let predicted_cpu_load = F.add cpu_load (F.div t.cpu (F.of_int node.cores)) in
      let memory_usage = F.div node.memory_allocated_percent (F.literal "100") in
      let predicted_memory_usage =
        F.add memory_usage (F.div (F.of_int t.memory) (F.of_int node.memory)) in
      let mem_cost = F.sub (F.pow lieb predicted_memory_usage) (F.pow lieb memory_usage) in
      let cpu_cost = F.sub (F.pow lieb predicted_cpu_load) (F.pow lieb cpu_load) in
      F.add mem_cost cpu_cost

  -- The loop, with the scores stored so far.
  unfoldable pub score_from : Task → List Node → Dict ℕ ℕ → Dict ℕ ℕ
  score_from t [] scores = scores
  score_from t (node ∷ nodes) scores =
      score_from t nodes (insert node.worker_uuid (cost t node) scores)

  unfoldable pub score : Task → List Node → Dict ℕ ℕ
  unfolding score_from
  score t nodes = score_from t nodes []

  -- `scores[node.WorkerUuid]`, 0.0 where it is missing.
  abbrev pub score_of : Dict ℕ ℕ → Node → ℕ
  score_of scores node = get_or node.worker_uuid 0 scores

  -- The loop after its first round, with `minCost` and `bestNode`.
  unfoldable pub pick_from : Dict ℕ ℕ → ℕ → Node → List Node → Node
  pick_from scores min_cost best [] = best
  pick_from scores min_cost best (node ∷ nodes) =
      let better = F.lt (score_of scores node) min_cost in
      pick_from scores (if better then score_of scores node else min_cost)
        (if better then node else best) nodes

  unfoldable pub pick : Dict ℕ ℕ → List Node → Option Node
  unfolding pick_from
  pick scores [] = none
  pick scores (node ∷ nodes) = some (pick_from scores (score_of scores node) node nodes)

  abbrev pub epvm : Scheduler
  epvm = record {
    State = Unit;
    select_candidate_nodes = select_candidate_nodes;
    score = λ s t nodes. some (s, score t nodes);
    pick = pick;
  }
