-- ===== src/Collector/Collect/Tests.antt =====
-- What the collectors expose, at concrete polls.
use braiins_pool_exporter.Base.{String, true, List, [], ◌∷◌}
use braiins_pool_exporter.Base.Different.{Different}
use braiins_pool_exporter.Base.Int.{ℤ, pos}
use braiins_pool_exporter.Base.Result.{Result, ok, err}
use braiins_pool_exporter.Base.Time.{Time}
use braiins_pool_exporter.Text.{Text, codes}
use braiins_pool_exporter.Braiins.Types.{ProfileResponse, CoinEnvelope, PoolStats, WorkersResponse}
use braiins_pool_exporter.Braiins.Errors.{ClientError, decode}
use braiins_pool_exporter.Braiins.Tests.{whole_numbers}
use braiins_pool_exporter.Collector.Tests.{as_it_is, btc, good, fleet}
use braiins_pool_exporter.Collector.Cache.Trace.{Refines, cache_after-Refines, cache_after}
use braiins_pool_exporter.Collector.Account.{AccountSnapshot, build_account_snapshot}
use braiins_pool_exporter.Collector.History.Poll.{
  HistoryClient, Settings, empty_history, poll_rewards,
}
use braiins_pool_exporter.Collector.Collect.{Key}
use braiins_pool_exporter.Collector.Collect.Series.{keys}
use braiins_pool_exporter.Collector.Collect.All.{
  start, rewards, pool_after, account_after, workers_after, gather, gather-Different,
}

-- A success between two failures, the last first.
abbrev account_trace : List (Time × Result ClientError ProfileResponse)
account_trace = (pos 9, err decode) ∷ (pos 7, good) ∷ (pos 5, err decode) ∷ []

abbrev build : Time → ProfileResponse → Result String (AccountSnapshot whole_numbers as_it_is)
build now response = build_account_snapshot whole_numbers as_it_is btc now response

abbrev label_of : String → Text
label_of message = codes "invalid_data"

abbrev time_of : AccountSnapshot whole_numbers as_it_is → Time
time_of s = s.collected_at

cache_after-Refines_example :
    Refines build label_of time_of (cache_after build label_of time_of account_trace) account_trace
cache_after-Refines_example = cache_after-Refines build label_of time_of account_trace

abbrev no_clock : Key → Time
no_clock key = pos 0

abbrev no_pool : List (Time × Result ClientError (CoinEnvelope PoolStats))
no_pool = (pos 1, err decode) ∷ []

abbrev fleet_trace : List (Time × Result ClientError (CoinEnvelope WorkersResponse))
fleet_trace = (pos 7, ok fleet) ∷ []

abbrev no_text : ℤ → Text
no_text d = []

abbrev settings : Settings
settings = record {
  coin = btc;
  history_days = pos 7;
  rewards_enabled = true;
  payouts_enabled = true;
}

abbrev broken : HistoryClient
broken = record {
  fetch_rewards = λ coin from_date to_date. err decode;
  fetch_payouts = λ coin from_date to_date. err decode;
}

gather-Different_example : Different (
    keys whole_numbers as_it_is (
      gather whole_numbers as_it_is btc no_clock
        (pool_after whole_numbers as_it_is btc no_pool)
        (account_after whole_numbers as_it_is btc account_trace)
        (workers_after whole_numbers as_it_is btc (pos 2) fleet_trace)
        (poll_rewards as_it_is no_text settings broken (pos 1) (pos 2) empty_history).0))
gather-Different_example =
    gather-Different whole_numbers as_it_is btc no_clock (pos 2) no_pool account_trace fleet_trace
      no_text settings
      (poll_rewards as_it_is no_text settings broken (pos 1) (pos 2) empty_history).0
      (rewards broken (pos 1) (pos 2) start)
