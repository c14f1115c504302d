-- ===== src/Main.antt =====
-- cmd/braiins-pool-exporter/main.go: which polls the program runs, and in what order and rhythm.
pub mod Run
pub mod Logger
pub mod Exporter
pub mod Laws
pub mod Tests
use braiins_pool_exporter.Base.{ℕ, ◌*◌, Bool, true, false, List, [], ◌∷◌, ◌++◌, if◌then◌else◌}
use braiins_pool_exporter.Base.Int.{ℤ, pos, leb_ℤ}
use braiins_pool_exporter.Base.Time.{Duration, second}
use braiins_pool_exporter.Text.{◌==◌}
use braiins_pool_exporter.Config.{Config}

-- The polls that `run` may take up.
pub data PollStep : Type 0 where
  account pool worker rewards payouts : PollStep

abbrev only_if : Bool → PollStep → List PollStep
only_if true step = step ∷ []
only_if false step = []

-- The steps that `run` collects. Without a token there are no collectors and nothing is polled.
unfoldable pub poll_steps : Config → List PollStep
unfolding ◌==◌
poll_steps c =
    if c.token == []
    then []
    else (account
        ∷ pool
        ∷ (only_if c.worker_metrics_enabled worker
            ++ (only_if c.rewards_enabled rewards ++ only_if c.payouts_enabled payouts)))

unfoldable pub positive_interval : Duration → Duration
positive_interval interval = if leb_ℤ interval (pos 0) then pos (60 * second) else interval

module _ {Step : Type 0} where
  -- The timer behind a step: five seconds, or the interval where no step is left.
  unfoldable pub pause : Duration → List Step → Duration
  pause interval [] = interval
  pause interval (next ∷ rest) = pos (5 * second)

  -- What comes behind the timer: the steps that are left, or a new round.
  unfoldable pub next_steps : List Step → List Step → List Step
  next_steps steps [] = steps
  next_steps steps (next ∷ rest) = next ∷ rest

  -- The two loops as one: `left` are the steps of this round that are still to run. A step is listed
  -- with the timer that is set behind it. `waits` says of each wait whether its timer fires (true) or
  -- the context is done first; behind its end the loop still waits.
  unfoldable pub step_loop :
      Duration → List Step → (left : List Step) → (waits : List Bool) → List (Step × Duration)
  unfolding pause next_steps
  step_loop interval steps [] [] = []
  step_loop interval steps [] (false ∷ waits) = []
  step_loop interval steps [] (true ∷ waits) = step_loop interval steps steps waits
  step_loop interval steps (step ∷ left) [] = (step, pause interval left) ∷ []
  step_loop interval steps (step ∷ left) (false ∷ waits) = (step, pause interval left) ∷ []
  step_loop interval steps (step ∷ left) (true ∷ waits) =
      (step, pause interval left) ∷ step_loop interval steps (next_steps steps left) waits

  unfoldable pub run_poll_steps : Duration → List Step → List Bool → List (Step × Duration)
  unfolding step_loop positive_interval
  run_poll_steps interval steps waits = step_loop (positive_interval interval) steps steps waits
