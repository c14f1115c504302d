-- ===== src/Collector/History/Poll/Trace.antt =====
-- The rewards and the payouts against the polls that made them: each endpoint is a cache of its own.
use braiins_pool_exporter.Base.{◌≡◌, refl, ◌∙◌, ap, String, List, [], ◌∷◌, Option}
use braiins_pool_exporter.Base.Int.{ℤ}
use braiins_pool_exporter.Base.Result.{Result, ok, err}
use braiins_pool_exporter.Base.Time.{Time}
use braiins_pool_exporter.Text.{Text, codes}
use braiins_pool_exporter.Braiins.Types.{CoinEnvelope, RewardsResponse, PayoutsResponse}
use braiins_pool_exporter.Braiins.Errors.{ClientError}
use braiins_pool_exporter.Collector.Counters.{Counters, count}
use braiins_pool_exporter.Collector.Cache.{Cache, record_request, accept, store, poll}
use braiins_pool_exporter.Collector.Cache.Trace.{cache_after, latest, tally, cache_after-Refines}
use braiins_pool_exporter.Collector.History.Window.{DateWindow, date_window}
use braiins_pool_exporter.Collector.History.Rewards.{RewardSnapshot, build_reward_snapshot}
use braiins_pool_exporter.Collector.History.Payouts.{PayoutSnapshot, build_payout_snapshot}
use braiins_pool_exporter.Collector.History.Poll.{
  HistoryClient, Settings, History, empty_history, count_rewards, count_payouts, store_rewards,
  store_payouts, take_rewards, take_payouts, poll_rewards, poll_payouts,
}
use braiins_pool_exporter.Collector.History.Poll.Laws.{
  poll_rewards-RewardsPolled, poll_payouts-PayoutsPolled,
}

abbrev invalid_data : String → Text
invalid_data message = codes "invalid_data"

-- A response with the window that it was asked for.
abbrev tag : {A : Type 0} → DateWindow → Result ClientError A → Result ClientError (DateWindow × A)
tag w (ok a) = ok (w, a)
tag w (err e) = err e

-- One endpoint of the history shows what a cache shows.
abbrev Shows : {S : Type 0} → Option S → Counters → Cache S → Type 0
Shows snapshot requests c = (snapshot ≡ c.last_good) × (requests ≡ c.requests)

-- What one endpoint promises about its own polls and no others.
pub record Endpoint {R S : Type 0} (build : Time → R → Result String S) (collected_at : S → Time)
    (snapshot : Option S) (requests : Counters) (own : List (Time × Result ClientError R))
    : Type 0 where
  pub newest : snapshot ≡ latest build invalid_data collected_at own
  pub counts : (key : Text) → count requests key ≡ tally build invalid_data collected_at own key

Shows-Endpoint :
    {R S : Type 0} (build : Time → R → Result String S) (collected_at : S → Time)
    (snapshot : Option S) (requests : Counters) (own : List (Time × Result ClientError R))
    → Shows snapshot requests (cache_after build invalid_data collected_at own)
    → Endpoint build collected_at snapshot requests own
Shows-Endpoint build collected_at snapshot requests own (same, counts) =
    let refines = cache_after-Refines build invalid_data collected_at own in
    record {
      newest = same ∙ refines.snapshot;
      counts = λ key. ap (λ m. count m key) counts ∙ refines.counts key;
    }

-- A poll of one endpoint, with the client and what the clock shows before the request and behind it.
pub data HistoryEvent : Type 0 where
  rewards_polled payouts_polled : HistoryClient → (asked now : Time) → HistoryEvent

module _ (fold : Text → Text) (date_only : ℤ → Text) (settings : Settings) where
  -- The state behind some polls, the last of them first.
  unfoldable pub history_after : List HistoryEvent → History
  unfolding poll_rewards poll_payouts
  history_after [] = empty_history
  history_after (rewards_polled client asked now ∷ earlier) =
      (poll_rewards fold date_only settings client asked now (history_after earlier)).0
  history_after (payouts_polled client asked now ∷ earlier) =
      (poll_payouts fold date_only settings client asked now (history_after earlier)).0

  abbrev window : Time → DateWindow
  window asked = date_window date_only settings.history_days asked

  abbrev pub reward_build :
      Time → DateWindow × CoinEnvelope RewardsResponse → Result String RewardSnapshot
  reward_build now (w, envelope) =
      build_reward_snapshot w.start w.end fold settings.coin now envelope

  abbrev pub payout_build : Time → DateWindow × PayoutsResponse → Result String PayoutSnapshot
  payout_build now (w, response) = build_payout_snapshot w.start w.end fold response now

  abbrev RewardEvent : Type 0
  RewardEvent = Time × Result ClientError (DateWindow × CoinEnvelope RewardsResponse)

  abbrev PayoutEvent : Type 0
  PayoutEvent = Time × Result ClientError (DateWindow × PayoutsResponse)

  -- The polls of one endpoint among all.
  abbrev pub reward_events : List HistoryEvent → List RewardEvent
  reward_events [] = []
  reward_events (rewards_polled client asked now ∷ earlier) =
      let w = window asked in
      (now, tag w (client.fetch_rewards settings.coin w.from_date w.to_date))
      ∷ reward_events earlier
  reward_events (payouts_polled client asked now ∷ earlier) = reward_events earlier

  abbrev pub payout_events : List HistoryEvent → List PayoutEvent
  payout_events [] = []
  payout_events (rewards_polled client asked now ∷ earlier) = payout_events earlier
  payout_events (payouts_polled client asked now ∷ earlier) =
      let w = window asked in
      (now, tag w (client.fetch_payouts settings.coin w.from_date w.to_date))
      ∷ payout_events earlier

  abbrev rewards_cache : List RewardEvent → Cache RewardSnapshot
  rewards_cache = cache_after reward_build invalid_data (λ s. s.collected_at)

  abbrev payouts_cache : List PayoutEvent → Cache PayoutSnapshot
  payouts_cache = cache_after payout_build invalid_data (λ s. s.collected_at)

  store_rewards-Shows :
      (now : Time) (h : History) (c : Cache RewardSnapshot) (built : Result String RewardSnapshot)
      → Shows h.rewards h.rewards_requests c
      → let h' = (store_rewards h built).0 in
        Shows h'.rewards h'.rewards_requests
          (store {B = String} (reward_build now) invalid_data (λ s. s.collected_at) c built).0
  unfolding store_rewards store count_rewards record_request accept
  store_rewards-Shows now h c (ok s) (_, counts) = (refl, rw counts)
  store_rewards-Shows now h c (err m) (snapshot, counts) = (snapshot, rw counts)

  take_rewards-Shows :
      (w : DateWindow) (now : Time) (h : History) (c : Cache RewardSnapshot)
      (fetched : Result ClientError (CoinEnvelope RewardsResponse))
      → Shows h.rewards h.rewards_requests c
      → let h' = (take_rewards fold date_only settings w now h fetched).0 in
        Shows h'.rewards h'.rewards_requests
          (poll (reward_build now) invalid_data (λ s. s.collected_at) c (tag w fetched)).0
  unfolding take_rewards poll count_rewards record_request
  take_rewards-Shows w now h c (ok envelope) same = store_rewards-Shows now h c _ same
  take_rewards-Shows w now h c (err e) (snapshot, counts) = (snapshot, rw counts)

  store_payouts-Shows :
      (now : Time) (h : History) (c : Cache PayoutSnapshot) (built : Result String PayoutSnapshot)
      → Shows h.payouts h.payouts_requests c
      → let h' = (store_payouts h built).0 in
        Shows h'.payouts h'.payouts_requests
          (store {B = String} (payout_build now) invalid_data (λ s. s.collected_at) c built).0
  unfolding store_payouts store count_payouts record_request accept
  store_payouts-Shows now h c (ok s) (_, counts) = (refl, rw counts)
  store_payouts-Shows now h c (err m) (snapshot, counts) = (snapshot, rw counts)

  take_payouts-Shows :
      (w : DateWindow) (now : Time) (h : History) (c : Cache PayoutSnapshot)
      (fetched : Result ClientError PayoutsResponse)
      → Shows h.payouts h.payouts_requests c
      → let h' = (take_payouts fold date_only settings w now h fetched).0 in
        Shows h'.payouts h'.payouts_requests
          (poll (payout_build now) invalid_data (λ s. s.collected_at) c (tag w fetched)).0
  unfolding take_payouts poll count_payouts record_request
  take_payouts-Shows w now h c (ok response) same = store_payouts-Shows now h c _ same
  take_payouts-Shows w now h c (err e) (snapshot, counts) = (snapshot, rw counts)

  history_after-Shows_rewards :
      (trace : List HistoryEvent)
      → Shows
          (history_after trace).rewards
          (history_after trace).rewards_requests
          (rewards_cache (reward_events trace))
  unfolding history_after cache_after poll_rewards poll_payouts
  history_after-Shows_rewards [] = (refl, refl)
  history_after-Shows_rewards (rewards_polled client asked now ∷ earlier) =
      take_rewards-Shows (window asked) now (history_after earlier)
        (rewards_cache (reward_events earlier))
        (client.fetch_rewards settings.coin (window asked).from_date (window asked).to_date)
        (history_after-Shows_rewards earlier)
  history_after-Shows_rewards (payouts_polled client asked now ∷ earlier) =
      let other =
        poll_payouts-PayoutsPolled fold date_only settings client asked now
          (history_after earlier) in
      let (snapshot, counts) = history_after-Shows_rewards earlier in
      (other.rewards_kept ∙ snapshot, other.counters_kept ∙ counts)

  history_after-Shows_payouts :
      (trace : List HistoryEvent)
      → Shows
          (history_after trace).payouts
          (history_after trace).payouts_requests
          (payouts_cache (payout_events trace))
  unfolding history_after cache_after poll_rewards poll_payouts
  history_after-Shows_payouts [] = (refl, refl)
  history_after-Shows_payouts (payouts_polled client asked now ∷ earlier) =
      take_payouts-Shows (window asked) now (history_after earlier)
        (payouts_cache (payout_events earlier))
        (client.fetch_payouts settings.coin (window asked).from_date (window asked).to_date)
        (history_after-Shows_payouts earlier)
  history_after-Shows_payouts (rewards_polled client asked now ∷ earlier) =
      let other =
        poll_rewards-RewardsPolled fold date_only settings client asked now
          (history_after earlier) in
      let (snapshot, counts) = history_after-Shows_payouts earlier in
      (other.payouts_kept ∙ snapshot, other.counters_kept ∙ counts)

  -- Behind any polls of the two endpoints, in any order, each endpoint shows the snapshot of the last of
  -- its own polls that succeeded, in the window that was asked for, and each of its counters is the
  -- number of its own polls that ended in the category; the polls of the other endpoint do not matter.
  pub history_after-Refines :
      (trace : List HistoryEvent)
      → let h = history_after trace in
        Endpoint reward_build
          (λ s. s.collected_at)
          h.rewards
          h.rewards_requests
          (reward_events trace)
        × Endpoint payout_build
            (λ s. s.collected_at)
            h.payouts
            h.payouts_requests
            (payout_events trace)
  history_after-Refines trace = (
    Shows-Endpoint reward_build _ _ _ _ (history_after-Shows_rewards trace),
    Shows-Endpoint payout_build _ _ _ _ (history_after-Shows_payouts trace),
  )
