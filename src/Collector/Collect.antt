-- ===== src/Collector/Collect.antt =====
-- What the collectors expose: the `Collect` methods, as the list of the samples that they send.
pub mod Workers
pub mod History
pub mod Keys
pub mod Series
pub mod OneWorker
pub mod Past
pub mod All
pub mod Laws
pub mod Tests
use braiins_pool_exporter.Base.{
  ℕ, ◌/◌, ◌≡◌, refl, Bool, true, false, List, [], ◌∷◌, ◌++◌, map, Option, none, some,
}
use braiins_pool_exporter.Base.Int.{ℤ, pos, negsuc}
use braiins_pool_exporter.Base.Float.{Float64}
use braiins_pool_exporter.Base.Time.{Time, second, sub}
use braiins_pool_exporter.Text.{Text, Map, codes, lookup}
use braiins_pool_exporter.Collector.Counters.{Counters, count}
use braiins_pool_exporter.Collector.Cache.{Cache}
use braiins_pool_exporter.Collector.Pool.{PoolSnapshot}
use braiins_pool_exporter.Collector.Account.{AccountSnapshot}
use braiins_pool_exporter.Collector.Workers.Labels.{sort_workers}

-- The descriptors, by the name of the metric.
pub data Desc : Type 0 where
  api_requests_total_desc api_last_success_desc data_age_desc : Desc
  pool_hashrate_desc pool_active_workers_desc pool_source_update_timestamp_desc : Desc
  account_hashrate_desc account_balance_desc account_workers_desc : Desc
  worker_state_desc worker_hashrate_desc worker_shares_desc worker_last_share_timestamp_desc
        worker_last_share_age_desc :
      Desc
  reward_daily_desc payout_amount_desc payout_fee_desc : Desc

-- A series: its metric and the values of its labels.
pub record Key : Type 0 where
  pub desc : Desc
  pub labels : List Text

-- `time.Time.Unix`: whole seconds, rounded down.
unfoldable pub unix_seconds : Time → ℤ
unix_seconds (pos n) = pos (n / second)
unix_seconds (negsuc n) = negsuc (n / second)

-- `sortedCounterKeys`
unfoldable pub sorted_counter_keys : Counters → List Text
unfolding sort_workers
sorted_counter_keys counters = map (λ (entry : Text × ℕ). entry.0) (sort_workers counters)

abbrev pub pool_windows : List Text
pool_windows = codes "5m" ∷ codes "60m" ∷ codes "24h" ∷ []

abbrev pub account_windows : List Text
account_windows = codes "5m" ∷ codes "60m" ∷ codes "24h" ∷ codes "yesterday" ∷ []

abbrev pub account_state_values : List Text
account_state_values = codes "ok" ∷ codes "low" ∷ codes "off" ∷ codes "dis" ∷ []

module _ (fl : Float64) (fold : Text → Text) where
  open fl use {F, of_int, seconds}

  -- Counters and gauges differ in their descriptor alone.
  pub record Sample : Type 0 where
    pub key : Key
    pub value : F

  abbrev pub sample : Desc → List Text → F → Sample
  sample desc labels value = record { key = record { desc = desc; labels = labels }; value = value }

  -- `requests[result]` for each result.
  unfoldable pub result_samples : Text → Counters → List Text → List Sample
  unfolding count
  result_samples endpoint requests [] = []
  result_samples endpoint requests (result ∷ results) =
      sample api_requests_total_desc (endpoint ∷ result ∷ []) (of_int (pos (count requests result)))
      ∷ result_samples endpoint requests results

  unfoldable pub request_samples : Text → Counters → List Sample
  unfolding result_samples sorted_counter_keys
  request_samples endpoint requests =
      result_samples endpoint requests (sorted_counter_keys requests)

  abbrev pub optional : Desc → List Text → Option F → List Sample
  optional desc labels none = []
  optional desc labels (some value) = sample desc labels value ∷ []

  -- The windows that the snapshot holds, in the order of the list.
  unfoldable pub window_samples : Desc → List Text → List Text → Map F → List Sample
  unfolding lookup
  window_samples desc labels [] values = []
  window_samples desc labels (window ∷ windows) values =
      optional desc (labels ++ window ∷ []) (lookup values window)
      ++ window_samples desc labels windows values

  -- The clock is read anew for each sample that tells an age, so it is a function of the sample's key.
  module _ (clock : Key → Time) where
    unfoldable pub age : Key → Time → F
    unfolding sub
    age key t = seconds (sub (clock key) t)

    unfoldable pub freshness : Text → Time → List Sample
    unfolding unix_seconds age
    freshness endpoint collected_at =
        sample api_last_success_desc (endpoint ∷ []) (of_int (unix_seconds collected_at))
        ∷ sample data_age_desc (endpoint ∷ [])
            (age (record { desc = data_age_desc; labels = endpoint ∷ [] }) collected_at)
        ∷ []

    -- `if snapshot == nil { return }`
    abbrev pub if_any : {S : Type 0} → (S → List Sample) → Option S → List Sample
    if_any samples none = []
    if_any samples (some s) = samples s

    unfoldable pub pool_samples : PoolSnapshot fl fold → List Sample
    unfolding window_samples freshness
    pool_samples s =
        window_samples pool_hashrate_desc [] pool_windows s.hashrates
        ++ (sample pool_active_workers_desc [] s.active_workers
            ∷ (optional pool_source_update_timestamp_desc [] s.source_update_ts
                ++ freshness (codes "pool_stats") s.collected_at))

    unfoldable pub collect_pool : Cache (PoolSnapshot fl fold) → List Sample
    unfolding request_samples pool_samples
    collect_pool c =
        request_samples (codes "pool_stats") c.requests ++ if_any pool_samples c.last_good

    -- `snapshot.workers[state]`, which is 0 for a key that is missing.
    abbrev or_zero : Option F → F
    or_zero none = of_int (pos 0)
    or_zero (some value) = value

    unfoldable pub account_states : Map F → List Text → List Sample
    unfolding lookup
    account_states workers [] = []
    account_states workers (state ∷ states) =
        sample account_workers_desc (state ∷ []) (or_zero (lookup workers state))
        ∷ account_states workers states

    unfoldable pub account_samples : AccountSnapshot fl fold → List Sample
    unfolding window_samples account_states freshness
    account_samples s =
        window_samples account_hashrate_desc [] account_windows s.hashrates
        ++ (optional account_balance_desc [] s.balance_btc
            ++ (account_states s.workers account_state_values
                ++ freshness (codes "profile") s.collected_at))

    unfoldable pub collect_account : Cache (AccountSnapshot fl fold) → List Sample
    unfolding request_samples account_samples
    collect_account c =
        request_samples (codes "profile") c.requests ++ if_any account_samples c.last_good
