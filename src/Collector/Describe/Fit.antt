-- ===== src/Collector/Describe/Fit.antt =====
-- The samples of the pool and of the account against the descriptors.
pub mod Workers
pub mod Past
pub mod Gather
use mathlib.Core.List.{Mem, mem-cons_self, mem-cons_of_mem, mem-append_left, mem-append_right}
use braiins_pool_exporter.Base.{
  ◌≡◌, refl, List, [], ◌∷◌, ◌++◌, Option, none, some, All, All-append, length,
}
use braiins_pool_exporter.Base.Float.{Float64}
use braiins_pool_exporter.Base.Time.{Time}
use braiins_pool_exporter.Text.{Text, Map, codes}
use braiins_pool_exporter.Collector.Cache.{Cache}
use braiins_pool_exporter.Collector.Counters.{Counters}
use braiins_pool_exporter.Collector.Pool.{PoolSnapshot}
use braiins_pool_exporter.Collector.Account.{AccountSnapshot}
use braiins_pool_exporter.Collector.Workers.{WorkerSample, WorkerSnapshot}
use braiins_pool_exporter.Collector.Workers.Labels.{WorkerState, sort_workers}
use braiins_pool_exporter.Collector.History.Poll.{History}
use braiins_pool_exporter.Collector.History.Payouts.{PayoutSnapshot}
use braiins_pool_exporter.Collector.History.Payouts.Labels.{
  Rail, PayoutStatus, payout_rails, payout_statuses,
}
use braiins_pool_exporter.Collector.History.Rewards.{Component, RewardSnapshot}
use braiins_pool_exporter.Collector.Collect.{
  Desc, Key, Sample, account_states, freshness, request_samples, pool_samples, collect_pool,
  account_samples, collect_account, pool_windows, account_windows, account_state_values,
  api_requests_total_desc, api_last_success_desc, data_age_desc, pool_hashrate_desc,
  pool_active_workers_desc, pool_source_update_timestamp_desc, account_hashrate_desc,
  account_balance_desc, account_workers_desc, worker_state_desc, worker_hashrate_desc,
  worker_shares_desc, worker_last_share_timestamp_desc, worker_last_share_age_desc,
  reward_daily_desc, payout_amount_desc, payout_fee_desc,
}
use braiins_pool_exporter.Collector.Collect.Workers.{
  state_samples, last_share_samples, one_worker, each_worker, worker_samples, collect_workers,
  worker_state_values, worker_hashrate_windows, worker_share_windows,
}
use braiins_pool_exporter.Collector.Collect.History.{
  endpoint_samples, component_samples, reward_samples, status_samples, rail_samples, payout_samples,
  collect_history, reward_components,
}
use braiins_pool_exporter.Collector.Describe.{
  label_names, describe_pool, describe_account, describe_workers, describe_history,
}
use braiins_pool_exporter.Collector.Describe.Laws.{
  Shared, IsFit, AreFit, request_samples-AreFit, window_samples-AreFit, optional-AreFit,
  freshness-AreFit, if_any-AreFit, account_states-AreFit,
}

pub ruleset places = (mem-cons_self, mem-cons_of_mem)

shared : Shared describe_account
unfolding describe_account
shared = record {
  requests = search places depth 9;
  success = search places depth 9;
  ages = search places depth 9;
}

pub Shared-append : (xs : List Desc) → Shared (xs ++ describe_account)
Shared-append xs = record {
  requests = mem-append_right xs shared.requests;
  success = mem-append_right xs shared.success;
  ages = mem-append_right xs shared.ages;
}

-- What a collector may send: what it describes itself, and what the account describes for all.
abbrev pub pool_descs : List Desc
pool_descs = describe_pool ++ describe_account

abbrev pub worker_descs : List Desc
worker_descs = describe_workers ++ describe_account

abbrev pub history_descs : List Desc
history_descs = describe_history ++ describe_account

module _ (fl : Float64) (fold : Text → Text) (clock : Key → Time) where
  pool_samples-AreFit :
      (s : PoolSnapshot fl fold) → AreFit fl fold pool_descs (pool_samples fl fold clock s)
  unfolding pool_samples label_names describe_pool describe_account
  pool_samples-AreFit s =
      All-append (IsFit fl fold pool_descs) _ _
        (window_samples-AreFit fl fold pool_descs pool_hashrate_desc [] pool_windows s.hashrates
          refl (search places depth 9))
        (
          (refl, search places depth 9),
          All-append (IsFit fl fold pool_descs) _ _
              (optional-AreFit fl fold pool_descs pool_source_update_timestamp_desc []
                s.source_update_ts refl (search places depth 9))
              (freshness-AreFit fl fold pool_descs clock (codes "pool_stats") s.collected_at
                (Shared-append describe_pool)),
        )

  pub collect_pool-AreFit :
      (c : Cache (PoolSnapshot fl fold)) → AreFit fl fold pool_descs (collect_pool fl fold clock c)
  unfolding collect_pool
  collect_pool-AreFit c =
      All-append (IsFit fl fold pool_descs) _ _
        (request_samples-AreFit fl fold pool_descs (codes "pool_stats") c.requests
          (Shared-append describe_pool))
        (if_any-AreFit fl fold pool_descs clock (pool_samples fl fold clock) c.last_good
          pool_samples-AreFit)

  account_samples-AreFit :
      (s : AccountSnapshot fl fold)
      → AreFit fl fold describe_account (account_samples fl fold clock s)
  unfolding account_samples label_names describe_account
  account_samples-AreFit s =
      All-append (IsFit fl fold describe_account) _ _
        (window_samples-AreFit fl fold describe_account account_hashrate_desc [] account_windows
          s.hashrates refl (search places depth 9))
        (All-append (IsFit fl fold describe_account) _ _
          (optional-AreFit fl fold describe_account account_balance_desc [] s.balance_btc refl
            (search places depth 9))
          (All-append (IsFit fl fold describe_account)
            (account_states fl fold clock s.workers account_state_values)
            (freshness fl fold clock (codes "profile") s.collected_at)
            (account_states-AreFit fl fold describe_account clock s.workers account_state_values
              (search places depth 9))
            (freshness-AreFit fl fold describe_account clock (codes "profile") s.collected_at
              shared)))

  pub collect_account-AreFit :
      (c : Cache (AccountSnapshot fl fold))
      → AreFit fl fold describe_account (collect_account fl fold clock c)
  unfolding collect_account
  collect_account-AreFit c =
      All-append (IsFit fl fold describe_account) _ _
        (request_samples-AreFit fl fold describe_account (codes "profile") c.requests shared)
        (if_any-AreFit fl fold describe_account clock (account_samples fl fold clock) c.last_good
          account_samples-AreFit)
