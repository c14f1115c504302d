-- ===== src/Main/Exporter/Tests.antt =====
-- A run with three steps, of which one cannot read its response.
use braiins_pool_exporter.Base.{ℕ, true, false, List, [], ◌∷◌, Bool}
use braiins_pool_exporter.Base.Int.{ℤ, pos}
use braiins_pool_exporter.Base.Result.{ok, err}
use braiins_pool_exporter.Text.{Text}
use braiins_pool_exporter.Braiins.Errors.{decode}
use braiins_pool_exporter.Braiins.Tests.{whole_numbers}
use braiins_pool_exporter.Config.Tests.{loaded}
use braiins_pool_exporter.Collector.Tests.{as_it_is, good, fleet}
use braiins_pool_exporter.Main.Exporter.{Met, steps_of, exporter_after}
use braiins_pool_exporter.Main.Exporter.Laws.{log_of, IsSound, exporter_after-IsSound}

abbrev no_text : ℤ → Text
no_text d = []

abbrev met : ℕ → Met
met k = record {
  asked = pos k;
  now = pos k;
  pool_stats = err decode;
  profile = good;
  workers = ok fleet;
  history = record {
    fetch_rewards = λ coin from_date to_date. err decode;
    fetch_payouts = λ coin from_date to_date. err decode;
  };
}

-- The account, the pool and the workers.
abbrev waits : List Bool
waits = true ∷ true ∷ false ∷ []

exporter_after-IsSound_example :
    IsSound whole_numbers as_it_is no_text loaded
      (exporter_after whole_numbers as_it_is no_text met loaded waits)
      (log_of met (steps_of whole_numbers as_it_is no_text met loaded waits))
exporter_after-IsSound_example =
    exporter_after-IsSound whole_numbers as_it_is no_text loaded met waits
