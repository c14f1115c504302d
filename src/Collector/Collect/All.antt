-- ===== src/Collector/Collect/All.antt =====
-- All collectors at once, behind any polls.
use braiins_pool_exporter.Base.{sym, ◌∙◌, String, List, [], ◌∷◌, ◌++◌, arith}
use braiins_pool_exporter.Base.Different.{Different}
use braiins_pool_exporter.Base.Float.{Float64}
use braiins_pool_exporter.Base.Int.{ℤ}
use braiins_pool_exporter.Base.Result.{Result, ok, err}
use braiins_pool_exporter.Base.Time.{Time}
use braiins_pool_exporter.Text.{Text, codes}
use braiins_pool_exporter.Braiins.Types.{
  CoinEnvelope, PoolStats, ProfileResponse, WorkersResponse, RewardsResponse, PayoutsResponse,
}
use braiins_pool_exporter.Braiins.Errors.{ClientError, categorize_error}
use braiins_pool_exporter.Collector.Cache.{Cache}
use braiins_pool_exporter.Collector.Cache.Trace.{cache_after, cache_after-Refines, latest-all}
use braiins_pool_exporter.Collector.Pool.{PoolSnapshot, build_pool_snapshot}
use braiins_pool_exporter.Collector.Account.{AccountSnapshot, build_account_snapshot}
use braiins_pool_exporter.Collector.Workers.{WorkerSnapshot, build_worker_snapshot, worker_category}
use braiins_pool_exporter.Collector.Workers.Laws.{NoRepeat, labels_of, build_worker_snapshot-labels}
use braiins_pool_exporter.Collector.History.Rewards.{RewardSnapshot}
use braiins_pool_exporter.Collector.History.Payouts.{PayoutSnapshot}
use braiins_pool_exporter.Collector.History.Window.{DateWindow, date_window}
use braiins_pool_exporter.Collector.History.Poll.{
  HistoryClient, Settings, History, empty_history, count_rewards, count_payouts, store_rewards,
  store_payouts, take_rewards, take_payouts, poll_rewards, poll_payouts,
}
use braiins_pool_exporter.Collector.Collect.{Key, Sample, collect_pool, collect_account}
use braiins_pool_exporter.Collector.Collect.Workers.{collect_workers}
use braiins_pool_exporter.Collector.Collect.History.{collect_history}
use braiins_pool_exporter.Collector.Collect.Keys.{keys_of, contains-none, Different-bump}
use braiins_pool_exporter.Collector.Collect.Series.{keys, Series, Series-append}
use braiins_pool_exporter.Collector.Collect.Laws.{collect_pool-Series, collect_account-Series}
use braiins_pool_exporter.Collector.Collect.OneWorker.{collect_workers-Series}
use braiins_pool_exporter.Collector.Collect.Past.{collect_history-Series}

NoRepeat-Different : (ts : List Text) → NoRepeat ts → Different ts
NoRepeat-Different [] h = tt
NoRepeat-Different (t ∷ ts) h = (contains-none t ts h.0, NoRepeat-Different ts h.1)

-- The counters of both endpoints of the history.
abbrev IsCounted : History → Type 0
IsCounted h = Different (keys_of h.rewards_requests) × Different (keys_of h.payouts_requests)

module _ (fold : Text → Text) (date_only : ℤ → Text) (settings : Settings) where
  store_rewards-IsCounted :
      (h : History) (built : Result String RewardSnapshot)
      → IsCounted h
      → IsCounted (store_rewards h built).0
  unfolding store_rewards count_rewards
  store_rewards-IsCounted h (ok s) c =
      (Different-bump h.rewards_requests (codes "success") c.0, c.1)
  store_rewards-IsCounted h (err m) c =
      (Different-bump h.rewards_requests (codes "invalid_data") c.0, c.1)

  store_payouts-IsCounted :
      (h : History) (built : Result String PayoutSnapshot)
      → IsCounted h
      → IsCounted (store_payouts h built).0
  unfolding store_payouts count_payouts
  store_payouts-IsCounted h (ok s) c =
      (c.0, Different-bump h.payouts_requests (codes "success") c.1)
  store_payouts-IsCounted h (err m) c =
      (c.0, Different-bump h.payouts_requests (codes "invalid_data") c.1)

  take_rewards-IsCounted :
      (w : DateWindow) (now : Time) (h : History)
      (fetched : Result ClientError (CoinEnvelope RewardsResponse))
      → IsCounted h
      → IsCounted (take_rewards fold date_only settings w now h fetched).0
  unfolding take_rewards count_rewards
  take_rewards-IsCounted w now h (ok envelope) c = store_rewards-IsCounted h _ c
  take_rewards-IsCounted w now h (err e) c =
      (Different-bump h.rewards_requests (categorize_error e) c.0, c.1)

  take_payouts-IsCounted :
      (w : DateWindow) (now : Time) (h : History) (fetched : Result ClientError PayoutsResponse)
      → IsCounted h
      → IsCounted (take_payouts fold date_only settings w now h fetched).0
  unfolding take_payouts count_payouts
  take_payouts-IsCounted w now h (ok response) c = store_payouts-IsCounted h _ c
  take_payouts-IsCounted w now h (err e) c =
      (c.0, Different-bump h.payouts_requests (categorize_error e) c.1)

  -- The states that the polls of the two endpoints lead to, in any order and with any answers.
  pub data Reached : History → Type 0 where
    start : Reached empty_history
    rewards :
        {h : History} (client : HistoryClient) (asked now : Time)
        → Reached h
        → Reached (poll_rewards fold date_only settings client asked now h).0
    payouts :
        {h : History} (client : HistoryClient) (asked now : Time)
        → Reached h
        → Reached (poll_payouts fold date_only settings client asked now h).0

  abbrev window : Time → DateWindow
  window asked = date_window date_only settings.history_days asked

  Reached-IsCounted : {h : History} → Reached h → IsCounted h
  unfolding poll_rewards poll_payouts
  Reached-IsCounted start = (tt, tt)
  Reached-IsCounted (rewards {h} client asked now r) =
      take_rewards-IsCounted (window asked) now h
        (client.fetch_rewards settings.coin (window asked).from_date (window asked).to_date)
        (Reached-IsCounted r)
  Reached-IsCounted (payouts {h} client asked now r) =
      take_payouts-IsCounted (window asked) now h
        (client.fetch_payouts settings.coin (window asked).from_date (window asked).to_date)
        (Reached-IsCounted r)

module _ (fl : Float64) (fold : Text → Text) (coin : Text) where
  abbrev pub pool_after :
      List (Time × Result ClientError (CoinEnvelope PoolStats)) → Cache (PoolSnapshot fl fold)
  pool_after =
      cache_after (λ now. build_pool_snapshot fl fold coin now) (λ message. codes "invalid_data")
        (λ s. s.collected_at)

  abbrev pub account_after :
      List (Time × Result ClientError ProfileResponse) → Cache (AccountSnapshot fl fold)
  account_after =
      cache_after (λ now. build_account_snapshot fl fold coin now) (λ message. codes "invalid_data")
        (λ s. s.collected_at)

  abbrev pub workers_after :
      ℤ
      → List (Time × Result ClientError (CoinEnvelope WorkersResponse))
      → Cache (WorkerSnapshot fl fold)
  workers_after max_workers =
      cache_after (λ now. build_worker_snapshot fl fold coin now max_workers)
        (worker_category fl fold) (λ s. s.collected_at)

  -- What a scrape gathers from the four collectors.
  abbrev pub gather :
      (Key → Time)
      → Cache (PoolSnapshot fl fold)
      → Cache (AccountSnapshot fl fold)
      → Cache (WorkerSnapshot fl fold)
      → History
      → List (Sample fl fold)
  gather clock pool account workers history =
      collect_pool fl fold clock pool
      ++ (collect_account fl fold clock account
          ++ (collect_workers fl fold clock workers ++ collect_history fl fold clock history))

  workers_after-Series :
      (clock : Key → Time) (max_workers : ℤ)
      (trace : List (Time × Result ClientError (CoinEnvelope WorkersResponse)))
      → Series fl fold 300 400 (collect_workers fl fold clock (workers_after max_workers trace))
  workers_after-Series clock max_workers trace =
      let refined =
        cache_after-Refines (λ now. build_worker_snapshot fl fold coin now max_workers)
          (worker_category fl fold) (λ s. s.collected_at) trace in
      collect_workers-Series fl fold clock (workers_after max_workers trace) refined.keys (λ s e.
        latest-all (λ now. build_worker_snapshot fl fold coin now max_workers)
          (worker_category fl fold) (λ t. t.collected_at)
          (λ t. Different (labels_of fl fold t.workers))
          (λ now envelope t built.
            let (response, found, size, few, fit, once, _) =
              build_worker_snapshot-labels fl fold coin now max_workers envelope t built in
            NoRepeat-Different (labels_of fl fold t.workers) once)
          trace s (sym refined.snapshot ∙ e))

  -- Whatever the polls of the four collectors have met, a scrape finds no series twice, neither in one
  -- collector nor in two.
  pub gather-Different :
      (clock : Key → Time) (max_workers : ℤ)
      (pool_trace : List (Time × Result ClientError (CoinEnvelope PoolStats)))
      (account_trace : List (Time × Result ClientError ProfileResponse))
      (workers_trace : List (Time × Result ClientError (CoinEnvelope WorkersResponse)))
      (date_only : ℤ → Text) (settings : Settings) (history : History)
      → Reached fold date_only settings history
      → Different (
          keys fl fold (
            gather clock
              (pool_after pool_trace)
              (account_after account_trace)
              (workers_after max_workers workers_trace)
              history))
  unfolding Series
  gather-Different clock max_workers pool_trace account_trace workers_trace date_only settings
        history r =
      let pool =
        cache_after-Refines (λ now. build_pool_snapshot fl fold coin now)
          (λ message. codes "invalid_data") (λ s. s.collected_at) pool_trace in
      let account =
        cache_after-Refines (λ now. build_account_snapshot fl fold coin now)
          (λ message. codes "invalid_data") (λ s. s.collected_at) account_trace in
      let (cr, cp) = Reached-IsCounted fold date_only settings r in
      (Series-append fl fold 100 200 500 _ _
        (collect_pool-Series fl fold clock (pool_after pool_trace) pool.keys)
        (Series-append fl fold 200 300 500 _ _
          (collect_account-Series fl fold clock (account_after account_trace) account.keys)
          (Series-append fl fold 300 400 500 _ _
            (workers_after-Series clock max_workers workers_trace)
            (collect_history-Series fl fold clock history cr cp) (omega arith) (omega arith))
          (omega arith) (omega arith))
        (omega arith) (omega arith)).different
