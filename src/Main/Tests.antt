-- ===== src/Main/Tests.antt =====
-- The rhythm of the polls at a concrete run.
use braiins_pool_exporter.Base.{suc, ◌≡◌, refl, Bool, true, false, List, [], ◌∷◌, take, ◌*◌}
use braiins_pool_exporter.Base.Int.{pos}
use braiins_pool_exporter.Base.Time.{Duration, second}
use braiins_pool_exporter.Main.{account, pool, run_poll_steps}
use braiins_pool_exporter.Main.Laws.{IsBetween, fired, rounds, run_poll_steps-rounds}

abbrev three_waits : List Bool
three_waits = true ∷ true ∷ false ∷ []

three_polls :
    run_poll_steps (pos 0) (account ∷ pool ∷ []) three_waits
    ≡ (account, pos (5 * second)) ∷ (pool, pos (60 * second)) ∷ (account, pos (5 * second)) ∷ []
unfolding run_poll_steps
three_polls = refl

run_poll_steps-rounds_example :
    (between : Duration) × IsBetween (pos 0) between
    × (run_poll_steps (pos 0) (account ∷ pool ∷ []) three_waits
        ≡ take
            (suc (fired three_waits))
            (rounds (suc (fired three_waits)) between (account ∷ pool ∷ [])))
run_poll_steps-rounds_example = run_poll_steps-rounds (pos 0) account (pool ∷ []) three_waits
