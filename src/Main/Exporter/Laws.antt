-- ===== src/Main/Exporter/Laws.antt =====
-- The collectors behind a run, each against its own polls.
use braiins_pool_exporter.Base.{ℕ, suc, ◌≡◌, refl, ap, Bool, List, [], ◌∷◌}
use braiins_pool_exporter.Base.Float.{Float64}
use braiins_pool_exporter.Base.Int.{ℤ}
use braiins_pool_exporter.Base.Result.{Result}
use braiins_pool_exporter.Base.Time.{Time}
use braiins_pool_exporter.Text.{Text, codes}
use braiins_pool_exporter.Config.{Config}
use braiins_pool_exporter.Braiins.Types.{CoinEnvelope, PoolStats, ProfileResponse, WorkersResponse}
use braiins_pool_exporter.Braiins.Errors.{ClientError}
use braiins_pool_exporter.Collector.Cache.Trace.{cache_after, Refines, cache_after-Refines}
use braiins_pool_exporter.Collector.Pool.{pool_poll, build_pool_snapshot}
use braiins_pool_exporter.Collector.Account.{account_poll, build_account_snapshot}
use braiins_pool_exporter.Collector.Workers.{worker_poll, worker_category, build_worker_snapshot}
use braiins_pool_exporter.Collector.Collect.All.{pool_after, account_after, workers_after}
use braiins_pool_exporter.Collector.History.Poll.{Settings, poll_rewards, poll_payouts}
use braiins_pool_exporter.Collector.History.Poll.Trace.{
  HistoryEvent, rewards_polled, payouts_polled, history_after, reward_build, payout_build,
  reward_events, payout_events, Endpoint, history_after-Refines,
}
use braiins_pool_exporter.Main.{PollStep, account, pool, worker, rewards, payouts}
use braiins_pool_exporter.Main.Run.{new_collectors}
use braiins_pool_exporter.Main.Exporter.{
  Met, Exporter, new_exporter, settings_of, exec_step, exec, steps_of, exporter_after,
}

-- The polls of each collector, the last of them first.
pub record Log : Type 0 where
  pub pool_polls : List (Time × Result ClientError (CoinEnvelope PoolStats))
  pub account_polls : List (Time × Result ClientError ProfileResponse)
  pub worker_polls : List (Time × Result ClientError (CoinEnvelope WorkersResponse))
  pub history_polls : List HistoryEvent

abbrev empty_log : Log
empty_log = record { pool_polls = []; account_polls = []; worker_polls = []; history_polls = [] }

abbrev log_step : PollStep → Met → Log → Log
log_step account e l = record l { account_polls = (e.now, e.profile) ∷ l.account_polls }
log_step pool e l = record l { pool_polls = (e.now, e.pool_stats) ∷ l.pool_polls }
log_step worker e l = record l { worker_polls = (e.now, e.workers) ∷ l.worker_polls }
log_step rewards e l = record l {
  history_polls = rewards_polled e.history e.asked e.now ∷ l.history_polls;
}
log_step payouts e l = record l {
  history_polls = payouts_polled e.history e.asked e.now ∷ l.history_polls;
}

module _ (met : ℕ → Met) where
  abbrev log_steps : ℕ → List PollStep → Log → Log
  log_steps k [] l = l
  log_steps k (step ∷ steps) l = log_steps (suc k) steps (log_step step (met k) l)

  -- The polls that the steps are.
  abbrev pub log_of : List PollStep → Log
  log_of steps = log_steps 0 steps empty_log

module _ (fl : Float64) (fold : Text → Text) (date_only : ℤ → Text) (c : Config) where
  abbrev coin : Text
  coin = (new_collectors fold c).coin

  abbrev max_workers : ℤ
  max_workers = (new_collectors fold c).max_workers

  abbrev settings : Settings
  settings = settings_of fl fold date_only c

  -- Each collector is where its own polls alone would bring it.
  record Agrees (x : Exporter fl fold date_only) (l : Log) : Type 0 where
    of_pool : x.pool_metrics ≡ pool_after fl fold coin l.pool_polls
    of_account : x.account_metrics ≡ account_after fl fold coin l.account_polls
    of_workers : x.worker_metrics ≡ workers_after fl fold coin max_workers l.worker_polls
    of_history : x.history_metrics ≡ history_after fold date_only settings l.history_polls

  exec_step-Agrees :
      (step : PollStep) (e : Met) (x : Exporter fl fold date_only) (l : Log)
      → Agrees x l
      → Agrees (exec_step fl fold date_only c step e x) (log_step step e l)
  unfolding exec_step cache_after history_after pool_poll account_poll worker_poll
  exec_step-Agrees account e x l h = record {
    of_pool = h.of_pool;
    of_account = ap (λ m. (account_poll fl fold coin e.now m e.profile).0) h.of_account;
    of_workers = h.of_workers;
    of_history = h.of_history;
  }
  exec_step-Agrees pool e x l h = record {
    of_pool = ap (λ m. (pool_poll fl fold coin e.now m e.pool_stats).0) h.of_pool;
    of_account = h.of_account;
    of_workers = h.of_workers;
    of_history = h.of_history;
  }
  exec_step-Agrees worker e x l h = record {
    of_pool = h.of_pool;
    of_account = h.of_account;
    of_workers = ap (λ m. (worker_poll fl fold coin e.now max_workers m e.workers).0) h.of_workers;
    of_history = h.of_history;
  }
  exec_step-Agrees rewards e x l h = record {
    of_pool = h.of_pool;
    of_account = h.of_account;
    of_workers = h.of_workers;
    of_history =
        ap (λ m. (poll_rewards fold date_only settings e.history e.asked e.now m).0) h.of_history;
  }
  exec_step-Agrees payouts e x l h = record {
    of_pool = h.of_pool;
    of_account = h.of_account;
    of_workers = h.of_workers;
    of_history =
        ap (λ m. (poll_payouts fold date_only settings e.history e.asked e.now m).0) h.of_history;
  }

  exec-Agrees :
      (met : ℕ → Met) (k : ℕ) (steps : List PollStep) (x : Exporter fl fold date_only) (l : Log)
      → Agrees x l
      → Agrees (exec fl fold date_only met c k steps x) (log_steps met k steps l)
  unfolding exec
  exec-Agrees met k [] x l h = h
  exec-Agrees met k (step ∷ steps) x l h =
      exec-Agrees met (suc k) steps (exec_step fl fold date_only c step (met k) x)
        (log_step step (met k) l) (exec_step-Agrees step (met k) x l h)

  new_exporter-Agrees : Agrees (new_exporter fl fold date_only) empty_log
  unfolding cache_after history_after
  new_exporter-Agrees = record {
    of_pool = refl;
    of_account = refl;
    of_workers = refl;
    of_history = refl;
  }

  -- Each collector keeps what it promises about its own polls.
  pub record IsSound (x : Exporter fl fold date_only) (l : Log) : Type 0 where
    pub pool :
        Refines
          (λ now. build_pool_snapshot fl fold coin now)
          (λ message. codes "invalid_data")
          (λ s. s.collected_at)
          x.pool_metrics
          l.pool_polls
    pub account :
        Refines
          (λ now. build_account_snapshot fl fold coin now)
          (λ message. codes "invalid_data")
          (λ s. s.collected_at)
          x.account_metrics
          l.account_polls
    pub workers :
        Refines
          (λ now. build_worker_snapshot fl fold coin now max_workers)
          (worker_category fl fold)
          (λ s. s.collected_at)
          x.worker_metrics
          l.worker_polls
    pub rewards :
        Endpoint
          (reward_build fold date_only settings)
          (λ s. s.collected_at)
          x.history_metrics.rewards
          x.history_metrics.rewards_requests
          (reward_events fold date_only settings l.history_polls)
    pub payouts :
        Endpoint
          (payout_build fold date_only settings)
          (λ s. s.collected_at)
          x.history_metrics.payouts
          x.history_metrics.payouts_requests
          (payout_events fold date_only settings l.history_polls)

  Agrees-IsSound : (x : Exporter fl fold date_only) (l : Log) → Agrees x l → IsSound x l
  Agrees-IsSound x l h =
      let history = history_after-Refines fold date_only settings l.history_polls in
      record {
        pool = rw h.of_pool (
            cache_after-Refines (λ now. build_pool_snapshot fl fold coin now)
              (λ message. codes "invalid_data") (λ s. s.collected_at) l.pool_polls);
        account = rw h.of_account (
            cache_after-Refines (λ now. build_account_snapshot fl fold coin now)
              (λ message. codes "invalid_data") (λ s. s.collected_at) l.account_polls);
        workers = rw h.of_workers (
            cache_after-Refines (λ now. build_worker_snapshot fl fold coin now max_workers)
              (worker_category fl fold) (λ s. s.collected_at) l.worker_polls);
        rewards = rw h.of_history history.0;
        payouts = rw h.of_history history.1;
      }

  -- At any time of a run, whatever its polls have met, each collector shows the snapshot of the last of
  -- its own polls that succeeded, and its counters count its own polls by what they ended in; its polls
  -- are those among the steps that runPollSteps has run.
  pub exporter_after-IsSound :
      (met : ℕ → Met) (waits : List Bool)
      → IsSound
          (exporter_after fl fold date_only met c waits)
          (log_of met (steps_of fl fold date_only met c waits))
  unfolding exporter_after
  exporter_after-IsSound met waits = Agrees-IsSound _ _ (
      exec-Agrees met 0 (steps_of fl fold date_only met c waits) (new_exporter fl fold date_only)
        empty_log new_exporter-Agrees)
