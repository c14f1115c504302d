-- ===== src/Collector/Tests.antt =====
-- The collectors' theorems at concrete inputs, and runs of their functions.
use braiins_pool_exporter.Base.{◌≡◌, refl, String, [], ◌∷◌, none, some, length, All}
use braiins_pool_exporter.Base.Int.{ℤ, pos, ◌≤ℤ◌}
use braiins_pool_exporter.Base.Result.{Result, ok}
use braiins_pool_exporter.Text.{Text, codes, lookup, to_lower, trim_space}
use braiins_pool_exporter.Text.Numbers.{parse_int}
use braiins_pool_exporter.Braiins.Types.{
  CoinEnvelope, Profile, ProfileResponse, Worker, WorkersResponse,
}
use braiins_pool_exporter.Braiins.Errors.{ClientError}
use braiins_pool_exporter.Braiins.Tests.{whole_numbers}
use braiins_pool_exporter.Collector.Cache.{Cache, empty_cache, poll}
use braiins_pool_exporter.Collector.Cache.Laws.{Polled, poll-Polled}
use braiins_pool_exporter.Collector.Account.{AccountSnapshot, build_account_snapshot}
use braiins_pool_exporter.Collector.Workers.{WorkerSample, WorkerSnapshot, build_worker_snapshot}
use braiins_pool_exporter.Collector.Workers.Labels.{ok_state}
use braiins_pool_exporter.Collector.Workers.Labels.{sort_workers}
use braiins_pool_exporter.Collector.Workers.Laws.{
  NoRepeat, IsLabel, labels_of, trimmed_names, build_worker_snapshot-labels,
}

abbrev pub as_it_is : Text → Text
as_it_is s = s

abbrev pub btc : Text
btc = codes "btc"

abbrev Account : Type 0
Account = AccountSnapshot whole_numbers as_it_is

abbrev build : ProfileResponse → Result String Account
build = build_account_snapshot whole_numbers as_it_is btc (pos 7)

abbrev label_of : String → Text
label_of message = codes "invalid_data"

abbrev time_of : Account → ℤ
time_of s = s.collected_at

abbrev profile : Profile
profile = record {
  all_time_reward = [];
  hash_rate_unit = codes "Gh/s";
  hash_rate_5m = codes "5";
  hash_rate_60m = codes "60";
  hash_rate_24h = codes "24";
  hash_rate_yesterday = codes "1";
  low_workers = pos 1;
  off_workers = pos 0;
  ok_workers = pos 2;
  disabled_workers = pos 0;
  current_balance = [];
  today_reward = [];
  estimated_reward = [];
  shares_5m = [];
  shares_60m = [];
  shares_24h = [];
  shares_yesterday = [];
}

abbrev pub good : Result ClientError ProfileResponse
good = ok (record { username = []; coins = (btc, profile) ∷ [] })

abbrev empty_account : Cache Account
empty_account = empty_cache

poll-Polled_example :
    Polled build label_of time_of empty_account good
      (poll build label_of time_of empty_account good)
poll-Polled_example = poll-Polled build label_of time_of empty_account good

abbrev pub rig : Worker
rig = record {
  state = codes "OK ";
  last_share = none;
  hash_rate_unit = [];
  hash_rate_scoring = none;
  hash_rate_5m = codes "5";
  hash_rate_60m = codes "60";
  hash_rate_24h = codes "24";
  shares_5m = codes "1";
  shares_60m = codes "2";
  shares_24h = codes "3";
}

abbrev pub fleet : CoinEnvelope WorkersResponse
fleet = (btc, record { workers = (codes "b", rig) ∷ (codes " a ", rig) ∷ [] }) ∷ []

abbrev Workers : Type 0
Workers = WorkerSnapshot whole_numbers as_it_is

abbrev sample : Text → WorkerSample whole_numbers as_it_is
sample label = record {
  label = label;
  state = ok_state;
  hashrates = (codes "5m", pos 5) ∷ (codes "60m", pos 60) ∷ (codes "24h", pos 24) ∷ [];
  shares = (codes "5m", pos 1) ∷ (codes "60m", pos 2) ∷ (codes "24h", pos 3) ∷ [];
  last_share_timestamp = none;
}

abbrev sampled : Workers
sampled = record { collected_at = pos 7; workers = sample (codes "a") ∷ sample (codes "b") ∷ [] }

fleet-sampled : build_worker_snapshot whole_numbers as_it_is btc (pos 7) (pos 2) fleet ≡ ok sampled
unfolding build_worker_snapshot trim_space parse_int
fleet-sampled = refl

build_worker_snapshot-labels_example :
    (response : WorkersResponse) × (lookup fleet (to_lower as_it_is btc) ≡ some response)
    × (length sampled.workers ≡ length response.workers)
    × (pos (length sampled.workers) ≤ℤ pos 2)
    × All IsLabel (labels_of whole_numbers as_it_is sampled.workers)
    × NoRepeat (labels_of whole_numbers as_it_is sampled.workers)
    × (labels_of whole_numbers as_it_is sampled.workers
        ≡ trimmed_names (sort_workers response.workers))
build_worker_snapshot-labels_example =
    build_worker_snapshot-labels whole_numbers as_it_is btc (pos 7) (pos 2) fleet sampled
      fleet-sampled
