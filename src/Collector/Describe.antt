-- ===== src/Collector/Describe.antt =====
-- internal/collector: the descriptors with their names and labels, the `Describe` methods, and the
-- collectors that cmd/braiins-pool-exporter/main.go registers.
pub mod Laws
pub mod Fit
pub mod Tests
use braiins_pool_exporter.Base.{◌||◌, Option, none, some, List, [], ◌∷◌, ◌++◌, map, if◌then◌else◌}
use braiins_pool_exporter.Text.{Text, codes, ◌==◌}
use braiins_pool_exporter.Config.{Config}
use braiins_pool_exporter.Collector.Collect.{
  Desc, api_requests_total_desc, api_last_success_desc, data_age_desc, pool_hashrate_desc,
  pool_active_workers_desc, pool_source_update_timestamp_desc, account_hashrate_desc,
  account_balance_desc, account_workers_desc, worker_state_desc, worker_hashrate_desc,
  worker_shares_desc, worker_last_share_timestamp_desc, worker_last_share_age_desc,
  reward_daily_desc, payout_amount_desc, payout_fee_desc,
}

-- The name and the labels that `NewDesc` gets; the help texts are left out.
abbrev pub DescVar : Type 0
DescVar = Text × List Text

-- The variables of internal/collector/pool.go.
unfoldable pub pool_vars : Desc → Option DescVar
pool_vars pool_hashrate_desc = some (codes "braiins_pool_hashrate_ghs", codes "window" ∷ [])
pool_vars pool_active_workers_desc = some (codes "braiins_pool_active_workers", [])
pool_vars pool_source_update_timestamp_desc =
    some (codes "braiins_pool_stats_update_timestamp_seconds", [])
pool_vars _ = none

-- Those of internal/collector/account.go.
unfoldable pub account_vars : Desc → Option DescVar
account_vars account_hashrate_desc =
    some (codes "braiins_pool_account_hashrate_ghs", codes "window" ∷ [])
account_vars account_balance_desc = some (codes "braiins_pool_account_balance_btc", [])
account_vars account_workers_desc = some (codes "braiins_pool_account_workers", codes "state" ∷ [])
account_vars api_last_success_desc =
    some (codes "braiins_pool_api_last_success_timestamp_seconds", codes "endpoint" ∷ [])
account_vars data_age_desc = some (codes "braiins_pool_data_age_seconds", codes "endpoint" ∷ [])
account_vars api_requests_total_desc =
    some (codes "braiins_pool_api_requests_total", codes "endpoint" ∷ codes "result" ∷ [])
account_vars _ = none

-- Those of internal/collector/worker.go.
unfoldable pub worker_vars : Desc → Option DescVar
worker_vars worker_state_desc =
    some (codes "braiins_pool_worker_state", codes "worker" ∷ codes "state" ∷ [])
worker_vars worker_hashrate_desc =
    some (codes "braiins_pool_worker_hashrate_ghs", codes "worker" ∷ codes "window" ∷ [])
worker_vars worker_shares_desc =
    some (codes "braiins_pool_worker_shares", codes "worker" ∷ codes "window" ∷ [])
worker_vars worker_last_share_timestamp_desc =
    some (codes "braiins_pool_worker_last_share_timestamp_seconds", codes "worker" ∷ [])
worker_vars worker_last_share_age_desc =
    some (codes "braiins_pool_worker_last_share_age_seconds", codes "worker" ∷ [])
worker_vars _ = none

-- Those of internal/collector/history.go.
unfoldable pub history_vars : Desc → Option DescVar
history_vars reward_daily_desc =
    some (codes "braiins_pool_reward_daily_btc", codes "component" ∷ [])
history_vars payout_amount_desc =
    some (codes "braiins_pool_payout_amount_sats", codes "rail" ∷ codes "status" ∷ [])
history_vars payout_fee_desc =
    some (codes "braiins_pool_payout_fee_sats", codes "rail" ∷ codes "status" ∷ [])
history_vars _ = none

abbrev first_var : List (Option DescVar) → DescVar
first_var [] = ([], [])
first_var (none ∷ vars) = first_var vars
first_var (some var ∷ vars) = var

abbrev var_of : Desc → DescVar
var_of desc =
    first_var (pool_vars desc ∷ account_vars desc ∷ worker_vars desc ∷ history_vars desc ∷ [])

unfoldable pub metric_name : Desc → Text
unfolding pool_vars account_vars worker_vars history_vars
metric_name desc = (var_of desc).0

unfoldable pub label_names : Desc → List Text
unfolding pool_vars account_vars worker_vars history_vars
label_names desc = (var_of desc).1

-- `Describe`, with what is sent as a list.
unfoldable pub describe_pool : List Desc
describe_pool =
    pool_hashrate_desc ∷ pool_active_workers_desc ∷ pool_source_update_timestamp_desc ∷ []

unfoldable pub describe_account : List Desc
describe_account =
    account_hashrate_desc ∷ account_balance_desc ∷ account_workers_desc ∷ api_last_success_desc
    ∷ data_age_desc ∷ api_requests_total_desc ∷ []

unfoldable pub describe_workers : List Desc
describe_workers =
    worker_state_desc ∷ worker_hashrate_desc ∷ worker_shares_desc ∷ worker_last_share_timestamp_desc
    ∷ worker_last_share_age_desc ∷ []

unfoldable pub describe_history : List Desc
describe_history = reward_daily_desc ∷ payout_amount_desc ∷ payout_fee_desc ∷ []

-- The gauges that `NewRegistry` registers itself.
abbrev pub self_names : List Text
self_names = codes "braiins_pool_exporter_build_info" ∷ codes "braiins_pool_exporter_ready" ∷ []

-- What the collectors describe that `run` registers, in its order.
unfoldable pub registered : Config → List Desc
unfolding describe_pool describe_account describe_workers describe_history ◌==◌
registered c =
    if c.token == []
    then []
    else describe_pool
      ++ (describe_account
          ++ ((if c.worker_metrics_enabled then describe_workers else [])
              ++ (if c.rewards_enabled || c.payouts_enabled then describe_history else [])))
