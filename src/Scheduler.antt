-- ===== src/Scheduler.antt =====
-- internal/scheduler/scheduler.go: the interface of the schedulers.
pub mod Epvm
pub mod RoundRobin
use netbula.Base.{ℕ, Option, List}
use netbula.Base.Dict.{Dict}
use netbula.Task.{Task}
use netbula.Node.{Node}

-- `none` of `score` is a panic, of `pick` the nil pointer. `score` may change the scheduler.
pub record Scheduler : Type 1 where
  pub State : Type 0
  pub select_candidate_nodes : Task → List Node → List Node
  pub score : State → Task → List Node → Option (State × Dict ℕ ℕ)
  pub pick : Dict ℕ ℕ → List Node → Option Node
