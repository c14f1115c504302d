-- ===== src/Main/Laws.antt =====
-- The rhythm of the polls.
use braiins_pool_exporter.Base.{
  ℕ, zero, suc, ◌≤◌, ◌≡◌, refl, ap, ◌*◌, ◌⊎◌, Bool, true, false, List, [], ◌∷◌, ◌++◌, arith, take,
}
use braiins_pool_exporter.Base.Int.{pos, ◌≤ℤ◌}
use braiins_pool_exporter.Base.Time.{Duration, second}
use braiins_pool_exporter.Main.{pause, next_steps, step_loop, run_poll_steps, positive_interval}

-- The waits before the context is done.
unfoldable pub fired : List Bool → ℕ
fired [] = 0
fired (false ∷ waits) = 0
fired (true ∷ waits) = suc (fired waits)

-- The time between rounds: the interval, or a minute in place of one that is not positive.
abbrev pub IsBetween : Duration → Duration → Type 0
IsBetween interval between =
    ((pos 1 ≤ℤ interval) × (between ≡ interval))
    ⊎ ((interval ≤ℤ pos 0) × (between ≡ pos 60_000_000_000))

positive_interval-IsBetween :
    (interval : Duration) → IsBetween interval (positive_interval interval)
unfolding positive_interval
positive_interval-IsBetween interval = ground arith

module _ {Step : Type 0} where
  -- One round as planned: five seconds behind each step that has one behind it, and the time between
  -- rounds behind the last.
  unfoldable pub planned : Duration → List Step → List (Step × Duration)
  planned between [] = []
  planned between (step ∷ []) = (step, between) ∷ []
  planned between (step ∷ next ∷ left) = (step, pos 5_000_000_000) ∷ planned between (next ∷ left)

  -- So many rounds.
  unfoldable pub rounds : ℕ → Duration → List Step → List (Step × Duration)
  unfolding planned
  rounds zero interval steps = []
  rounds (suc n) interval steps = planned interval steps ++ rounds n interval steps

  step_loop-rounds :
      (interval : Duration) (first : Step) (others : List Step) (step : Step) (left : List Step)
      (waits : List Bool) (n : ℕ)
      → fired waits ≤ n
      → step_loop interval (first ∷ others) (step ∷ left) waits
        ≡ take
            (suc (fired waits))
            (planned interval (step ∷ left) ++ rounds n interval (first ∷ others))
  unfolding step_loop fired planned next_steps rounds pause
  step_loop-rounds interval first others step [] [] n h = refl
  step_loop-rounds interval first others step (next ∷ left) [] n h = refl
  step_loop-rounds interval first others step [] (false ∷ waits) n h = refl
  step_loop-rounds interval first others step (next ∷ left) (false ∷ waits) n h = refl
  step_loop-rounds interval first others step (next ∷ left) (true ∷ waits) n h =
      ap (λ rest. (step, pos (5 * second)) ∷ rest)
        (step_loop-rounds interval first others next left waits n (omega arith))
  step_loop-rounds interval first others step [] (true ∷ waits) zero h = absurd (omega arith)
  step_loop-rounds interval first others step [] (true ∷ waits) (suc n) h =
      ap (λ rest. (step, interval) ∷ rest)
        (step_loop-rounds interval first others first others waits n (omega arith))

  -- The polls run in rounds: with so many timers fired as there are before the context is done, one
  -- step more has run, and the steps are those of the rounds in their order, with five seconds between
  -- the steps of a round and, between rounds, the interval, or a minute in place of one that is not
  -- positive.
  pub run_poll_steps-rounds :
      (interval : Duration) (first : Step) (others : List Step) (waits : List Bool)
      → (between : Duration) × IsBetween interval between
        × (run_poll_steps interval (first ∷ others) waits
            ≡ take (suc (fired waits)) (rounds (suc (fired waits)) between (first ∷ others)))
  unfolding run_poll_steps rounds
  run_poll_steps-rounds interval first others waits = (
    positive_interval interval,
    positive_interval-IsBetween interval,
    step_loop-rounds (positive_interval interval) first others first others waits (fired waits)
        (omega arith),
  )
