-- ===== src/Collector/History/Poll/Laws.antt =====
-- The two caches of the history are independent, and a failure leaves its own as it was.
use braiins_pool_exporter.Base.{
  ◌+◌, ◌≡◌, ◌≢◌, refl, ◌⊎◌, inl, inr, String, Option, none, some, arith, if◌then◌else◌, Bool-cases,
}
use braiins_pool_exporter.Base.Int.{ℤ}
use braiins_pool_exporter.Base.Result.{Result, ok, err}
use braiins_pool_exporter.Base.Time.{Time}
use braiins_pool_exporter.Text.{Text, codes}
use braiins_pool_exporter.Braiins.Types.{CoinEnvelope, RewardsResponse, PayoutsResponse}
use braiins_pool_exporter.Braiins.Errors.{ClientError, categorize_error}
use braiins_pool_exporter.Collector.Cache.{PollError}
use braiins_pool_exporter.Collector.Counters.{all_requests, all_requests-bump}
use braiins_pool_exporter.Collector.History.Window.{DateWindow, date_window}
use braiins_pool_exporter.Collector.History.Rewards.{RewardSnapshot, build_reward_snapshot}
use braiins_pool_exporter.Collector.History.Payouts.{PayoutSnapshot, build_payout_snapshot}
use braiins_pool_exporter.Collector.History.Poll.{
  HistoryClient, Settings, History, count_rewards, count_payouts, store_rewards, store_payouts,
  take_rewards, take_payouts, poll_rewards, poll_payouts, poll_history,
}

module _ (fold : Text → Text) (date_only : ℤ → Text) (settings : Settings)
    (client : HistoryClient) where
  abbrev window : Time → DateWindow
  window asked = date_window date_only settings.history_days asked

  abbrev rewards_of : Time → Result ClientError (CoinEnvelope RewardsResponse)
  rewards_of asked =
      client.fetch_rewards settings.coin (window asked).from_date (window asked).to_date

  -- The rewards after a poll, by the error that it returned.
  pub record RewardsPolled (asked now : Time) (h : History)
      (after : History × Option (PollError String)) : Type 0 where
    pub payouts_kept : after.0.payouts ≡ h.payouts
    pub counters_kept : after.0.payouts_requests ≡ h.payouts_requests
    pub counted : all_requests after.0.rewards_requests ≡ all_requests h.rewards_requests + 1
    pub snapshot :
        ((after.1 ≡ none)
          × ((envelope : CoinEnvelope RewardsResponse) × (s : RewardSnapshot) × (rewards_of asked
                ≡ ok envelope)
              × (build_reward_snapshot
                    (window asked).start
                    (window asked).end
                    fold
                    settings.coin
                    now
                    envelope
                  ≡ ok s)
              × (after.0.rewards ≡ some s)))
        ⊎ ((after.1 ≢ none) × (after.0.rewards ≡ h.rewards))

  store_rewards-RewardsPolled :
      (asked now : Time) (h : History) (envelope : CoinEnvelope RewardsResponse)
      (built : Result String RewardSnapshot)
      → rewards_of asked ≡ ok envelope
      → build_reward_snapshot
          (window asked).start
          (window asked).end
          fold
          settings.coin
          now
          envelope
        ≡ built
      → RewardsPolled asked now h (store_rewards h built)
  unfolding store_rewards count_rewards
  store_rewards-RewardsPolled asked now h envelope (ok s) fetched e = record {
    payouts_kept = refl;
    counters_kept = refl;
    counted = all_requests-bump h.rewards_requests (codes "success");
    snapshot = inl (refl, (envelope, s, fetched, e, refl));
  }
  store_rewards-RewardsPolled asked now h envelope (err m) fetched e = record {
    payouts_kept = refl;
    counters_kept = refl;
    counted = all_requests-bump h.rewards_requests (codes "invalid_data");
    snapshot = inr (ground arith, refl);
  }

  take_rewards-RewardsPolled :
      (asked now : Time) (h : History) (fetched : Result ClientError (CoinEnvelope RewardsResponse))
      → rewards_of asked ≡ fetched
      → RewardsPolled asked now h
          (take_rewards fold date_only settings (window asked) now h fetched)
  unfolding take_rewards count_rewards
  take_rewards-RewardsPolled asked now h (err e) same = record {
    payouts_kept = refl;
    counters_kept = refl;
    counted = all_requests-bump h.rewards_requests (categorize_error e);
    snapshot = inr (ground arith, refl);
  }
  take_rewards-RewardsPolled asked now h (ok envelope) same =
      store_rewards-RewardsPolled asked now h envelope _ same refl

  -- A poll of the rewards leaves the payouts and their counters alone and counts one request. Without an
  -- error the cache holds the snapshot that the response of the asked window builds; with one it holds
  -- what it held.
  pub poll_rewards-RewardsPolled :
      (asked now : Time) (h : History)
      → RewardsPolled asked now h (poll_rewards fold date_only settings client asked now h)
  unfolding poll_rewards
  poll_rewards-RewardsPolled asked now h = take_rewards-RewardsPolled asked now h _ refl

  abbrev payouts_of : Time → Result ClientError PayoutsResponse
  payouts_of asked =
      client.fetch_payouts settings.coin (window asked).from_date (window asked).to_date

  -- The payouts after a poll, by the error that it returned.
  pub record PayoutsPolled (asked now : Time) (h : History)
      (after : History × Option (PollError String)) : Type 0 where
    pub rewards_kept : after.0.rewards ≡ h.rewards
    pub counters_kept : after.0.rewards_requests ≡ h.rewards_requests
    pub counted : all_requests after.0.payouts_requests ≡ all_requests h.payouts_requests + 1
    pub snapshot :
        ((after.1 ≡ none)
          × ((response : PayoutsResponse) × (s : PayoutSnapshot) × (payouts_of asked ≡ ok response)
              × (build_payout_snapshot (window asked).start (window asked).end fold response now
                  ≡ ok s)
              × (after.0.payouts ≡ some s)))
        ⊎ ((after.1 ≢ none) × (after.0.payouts ≡ h.payouts))

  store_payouts-PayoutsPolled :
      (asked now : Time) (h : History) (response : PayoutsResponse)
      (built : Result String PayoutSnapshot)
      → payouts_of asked ≡ ok response
      → build_payout_snapshot (window asked).start (window asked).end fold response now ≡ built
      → PayoutsPolled asked now h (store_payouts h built)
  unfolding store_payouts count_payouts
  store_payouts-PayoutsPolled asked now h response (ok s) fetched e = record {
    rewards_kept = refl;
    counters_kept = refl;
    counted = all_requests-bump h.payouts_requests (codes "success");
    snapshot = inl (refl, (response, s, fetched, e, refl));
  }
  store_payouts-PayoutsPolled asked now h response (err m) fetched e = record {
    rewards_kept = refl;
    counters_kept = refl;
    counted = all_requests-bump h.payouts_requests (codes "invalid_data");
    snapshot = inr (ground arith, refl);
  }

  take_payouts-PayoutsPolled :
      (asked now : Time) (h : History) (fetched : Result ClientError PayoutsResponse)
      → payouts_of asked ≡ fetched
      → PayoutsPolled asked now h
          (take_payouts fold date_only settings (window asked) now h fetched)
  unfolding take_payouts count_payouts
  take_payouts-PayoutsPolled asked now h (err e) same = record {
    rewards_kept = refl;
    counters_kept = refl;
    counted = all_requests-bump h.payouts_requests (categorize_error e);
    snapshot = inr (ground arith, refl);
  }
  take_payouts-PayoutsPolled asked now h (ok response) same =
      store_payouts-PayoutsPolled asked now h response _ same refl

  -- A poll of the payouts leaves the rewards and their counters alone and counts one request. Without an
  -- error the cache holds the snapshot that the response of the asked window builds; with one it holds
  -- what it held.
  pub poll_payouts-PayoutsPolled :
      (asked now : Time) (h : History)
      → PayoutsPolled asked now h (poll_payouts fold date_only settings client asked now h)
  unfolding poll_payouts
  poll_payouts-PayoutsPolled asked now h = take_payouts-PayoutsPolled asked now h _ refl

  -- A poll of one endpoint counts one request of it and leaves the other endpoint, its counters
  -- included, as it was. Without an error the cache of the endpoint holds the snapshot that the response
  -- of the asked window builds; with one it holds what it held.
  pub poll_each_independent :
      (asked now : Time) (h : History)
      → RewardsPolled asked now h (poll_rewards fold date_only settings client asked now h)
        × PayoutsPolled asked now h (poll_payouts fold date_only settings client asked now h)
  poll_each_independent asked now h =
      (poll_rewards-RewardsPolled asked now h, poll_payouts-PayoutsPolled asked now h)

  store_payouts_cong :
      (h k : History) (built : Result String PayoutSnapshot)
      → h.payouts ≡ k.payouts
      → (store_payouts h built).0.payouts ≡ (store_payouts k built).0.payouts
  unfolding store_payouts count_payouts
  store_payouts_cong h k (ok s) e = refl
  store_payouts_cong h k (err m) e = e

  take_payouts_cong :
      (w : DateWindow) (now : Time) (h k : History) (fetched : Result ClientError PayoutsResponse)
      → h.payouts ≡ k.payouts
      → (take_payouts fold date_only settings w now h fetched).0.payouts
        ≡ (take_payouts fold date_only settings w now k fetched).0.payouts
  unfolding take_payouts count_payouts
  take_payouts_cong w now h k (ok response) e = store_payouts_cong h k _ e
  take_payouts_cong w now h k (err x) e = e

  -- The payouts behind a poll of them hang on the payouts before it alone.
  poll_payouts_cong :
      (asked now : Time) (h k : History)
      → h.payouts ≡ k.payouts
      → (poll_payouts fold date_only settings client asked now h).0.payouts
        ≡ (poll_payouts fold date_only settings client asked now k).0.payouts
  unfolding poll_payouts
  poll_payouts_cong asked now h k e = take_payouts_cong (window asked) now h k (payouts_of asked) e

  -- In one round the endpoints do not depend on one another: the payouts end as their own poll alone
  -- would leave them, also where the rewards fail, and the rewards as theirs would; an endpoint that is
  -- not enabled is left as it was.
  pub poll_history_independent :
      (asked now asked' now' : Time) (h : History)
      → let after = (poll_history fold date_only settings client asked now asked' now' h).0 in
        (after.rewards ≡ (
          if settings.rewards_enabled
          then (poll_rewards fold date_only settings client asked now h).0.rewards
          else h.rewards))
        × (after.payouts ≡ (
            if settings.payouts_enabled
            then (poll_payouts fold date_only settings client asked' now' h).0.payouts
            else h.payouts))
  unfolding poll_history
  poll_history_independent asked now asked' now' h =
      let rewards = poll_rewards fold date_only settings client asked now h in
      let first = poll_rewards-RewardsPolled asked now h in
      let alone = poll_payouts-PayoutsPolled asked' now' h in
      let behind = poll_payouts-PayoutsPolled asked' now' rewards.0 in
      let same = poll_payouts_cong asked' now' rewards.0 h first.payouts_kept in
      elim (Bool-cases settings.rewards_enabled) [
        | inl on ↦ elim (Bool-cases settings.payouts_enabled) [
          | inl on' ↦ rw (on, on') (behind.rewards_kept, same)
          | inr off' ↦ rw (on, off') (refl, first.payouts_kept)
        ]
        | inr off ↦ elim (Bool-cases settings.payouts_enabled) [
          | inl on' ↦ rw (off, on') (alone.rewards_kept, refl)
          | inr off' ↦ rw (off, off') (refl, refl)
        ]
      ]
