-- ===== src/Main/Exporter.antt =====
-- cmd/braiins-pool-exporter/main.go: the goroutine that polls, with the collectors that it polls. What
-- the collectors keep is the state, and each step that runPollSteps runs changes one of them.
pub mod Laws
pub mod Tests
use braiins_pool_exporter.Base.{ℕ, suc, Bool, List, [], ◌∷◌, map}
use braiins_pool_exporter.Base.Float.{Float64}
use braiins_pool_exporter.Base.Int.{ℤ}
use braiins_pool_exporter.Base.Result.{Result}
use braiins_pool_exporter.Base.Time.{Time, Duration}
use braiins_pool_exporter.Text.{Text}
use braiins_pool_exporter.Config.{Config}
use braiins_pool_exporter.Braiins.Types.{CoinEnvelope, PoolStats, ProfileResponse, WorkersResponse}
use braiins_pool_exporter.Braiins.Errors.{ClientError}
use braiins_pool_exporter.Collector.Cache.{Cache, empty_cache}
use braiins_pool_exporter.Collector.Pool.{PoolSnapshot, pool_poll}
use braiins_pool_exporter.Collector.Account.{AccountSnapshot, account_poll}
use braiins_pool_exporter.Collector.Workers.{WorkerSnapshot, worker_poll}
use braiins_pool_exporter.Collector.History.Poll.{
  HistoryClient, Settings, History, empty_history, poll_rewards, poll_payouts,
}
use braiins_pool_exporter.Main.{
  PollStep, account, pool, worker, rewards, payouts, poll_steps, run_poll_steps,
}
use braiins_pool_exporter.Main.Run.{Collectors, new_collectors}

-- What a step may meet, of which each uses its own part: what the clock shows before the request and
-- behind it, and what the calls of the client return.
pub record Met : Type 0 where
  pub asked : Time
  pub now : Time
  pub pool_stats : Result ClientError (CoinEnvelope PoolStats)
  pub profile : Result ClientError ProfileResponse
  pub workers : Result ClientError (CoinEnvelope WorkersResponse)
  pub history : HistoryClient

module _ (fl : Float64) (fold : Text → Text) (date_only : ℤ → Text) where
  pub record Exporter : Type 0 where
    pub pool_metrics : Cache (PoolSnapshot fl fold)
    pub account_metrics : Cache (AccountSnapshot fl fold)
    pub worker_metrics : Cache (WorkerSnapshot fl fold)
    pub history_metrics : History

  abbrev pub new_exporter : Exporter
  new_exporter = record {
    pool_metrics = empty_cache;
    account_metrics = empty_cache;
    worker_metrics = empty_cache;
    history_metrics = empty_history;
  }

  abbrev pub settings_of : Config → Settings
  settings_of c =
      let kept = new_collectors fold c in
      record {
        coin = kept.coin;
        history_days = kept.history_days;
        rewards_enabled = c.rewards_enabled;
        payouts_enabled = c.payouts_enabled;
      }

  -- `_ = step(ctx)`: the error that a poll returns is thrown away.
  unfoldable pub exec_step : Config → PollStep → Met → Exporter → Exporter
  unfolding pool_poll account_poll worker_poll poll_rewards poll_payouts
  exec_step c account e x = record x {
    account_metrics =
        (account_poll fl fold (new_collectors fold c).coin e.now x.account_metrics e.profile).0;
  }
  exec_step c pool e x = record x {
    pool_metrics =
        (pool_poll fl fold (new_collectors fold c).coin e.now x.pool_metrics e.pool_stats).0;
  }
  exec_step c worker e x =
      let kept = new_collectors fold c in
      record x {
        worker_metrics =
            (worker_poll fl fold kept.coin e.now kept.max_workers x.worker_metrics e.workers).0;
      }
  exec_step c rewards e x = record x {
    history_metrics =
        (poll_rewards fold date_only (settings_of c) e.history e.asked e.now x.history_metrics).0;
  }
  exec_step c payouts e x = record x {
    history_metrics =
        (poll_payouts fold date_only (settings_of c) e.history e.asked e.now x.history_metrics).0;
  }

  -- `met` tells by the number of a step what it meets.
  module _ (met : ℕ → Met) where
    -- The steps one behind the other, from number `k`.
    unfoldable pub exec : Config → ℕ → List PollStep → Exporter → Exporter
    unfolding exec_step
    exec c k [] x = x
    exec c k (step ∷ steps) x = exec c (suc k) steps (exec_step c step (met k) x)

    -- The steps that have run, without the timers behind them.
    abbrev pub steps_of : Config → List Bool → List PollStep
    steps_of c waits =
        map (λ (run : PollStep × Duration). run.0)
          (run_poll_steps c.poll_interval (poll_steps c) waits)

    unfoldable pub exporter_after : Config → List Bool → Exporter
    unfolding exec run_poll_steps poll_steps
    exporter_after c waits = exec c 0 (steps_of c waits) new_exporter
