-- ===== src/Collector/History/Poll.antt =====
-- The state of the rewards and payouts collector and its polls (`PollRewards`, `PollPayouts`, `Poll`).
pub mod Laws
pub mod Trace
pub mod Tests
use braiins_pool_exporter.Base.{
  String, Bool, Option, none, some, List, [], ◌∷◌, ◌++◌, if◌then◌else◌,
}
use braiins_pool_exporter.Base.Int.{ℤ, pos, leb_ℤ}
use braiins_pool_exporter.Base.Result.{Result, ok, err}
use braiins_pool_exporter.Base.Time.{Time}
use braiins_pool_exporter.Text.{Text, codes}
use braiins_pool_exporter.Braiins.Types.{CoinEnvelope, RewardsResponse, PayoutsResponse}
use braiins_pool_exporter.Braiins.Errors.{ClientError, categorize_error}
use braiins_pool_exporter.Collector.Cache.{PollError, request, invalid}
use braiins_pool_exporter.Collector.Counters.{Counters, bump}
use braiins_pool_exporter.Collector.History.Window.{DateWindow, date_window}
use braiins_pool_exporter.Collector.History.Rewards.{RewardSnapshot, build_reward_snapshot}
use braiins_pool_exporter.Collector.History.Payouts.{PayoutSnapshot, build_payout_snapshot}

-- The client, as the two calls that a poll may make with a coin and two dates.
pub record HistoryClient : Type 0 where
  pub fetch_rewards : Text → Text → Text → Result ClientError (CoinEnvelope RewardsResponse)
  pub fetch_payouts : Text → Text → Text → Result ClientError PayoutsResponse

-- What stays as it was built.
pub record Settings : Type 0 where
  pub coin : Text
  pub history_days : ℤ
  pub rewards_enabled : Bool
  pub payouts_enabled : Bool

-- The map of counters has the two endpoints for keys.
pub record History : Type 0 where
  pub rewards : Option RewardSnapshot
  pub payouts : Option PayoutSnapshot
  pub rewards_requests : Counters
  pub payouts_requests : Counters

-- `NewHistoryMetrics`: 7 days where no positive number is configured.
unfoldable pub window_days : ℤ → ℤ
window_days configured = if leb_ℤ configured (pos 0) then pos 7 else configured

abbrev pub empty_history : History
empty_history = record {
  rewards = none;
  payouts = none;
  rewards_requests = [];
  payouts_requests = [];
}

unfoldable pub count_rewards : History → Text → History
unfolding bump
count_rewards h category = record h { rewards_requests = bump h.rewards_requests category }

unfoldable pub count_payouts : History → Text → History
unfolding bump
count_payouts h category = record h { payouts_requests = bump h.payouts_requests category }

unfoldable pub store_rewards :
    History → Result String RewardSnapshot → History × Option (PollError String)
unfolding count_rewards
store_rewards h (err e) = (count_rewards h (codes "invalid_data"), some (invalid e))
store_rewards h (ok snapshot) =
    (record (count_rewards h (codes "success")) { rewards = some snapshot }, none)

unfoldable pub store_payouts :
    History → Result String PayoutSnapshot → History × Option (PollError String)
unfolding count_payouts
store_payouts h (err e) = (count_payouts h (codes "invalid_data"), some (invalid e))
store_payouts h (ok snapshot) =
    (record (count_payouts h (codes "success")) { payouts = some snapshot }, none)

module _ (fold : Text → Text) (date_only : ℤ → Text) (settings : Settings) where
  unfoldable pub take_rewards :
      DateWindow
      → Time
      → History
      → Result ClientError (CoinEnvelope RewardsResponse)
      → History × Option (PollError String)
  unfolding count_rewards categorize_error build_reward_snapshot store_rewards
  take_rewards w now h (err e) = (count_rewards h (categorize_error e), some (request e))
  take_rewards w now h (ok envelope) =
      store_rewards h (build_reward_snapshot w.start w.end fold settings.coin now envelope)

  unfoldable pub take_payouts :
      DateWindow
      → Time
      → History
      → Result ClientError PayoutsResponse
      → History × Option (PollError String)
  unfolding count_payouts categorize_error build_payout_snapshot store_payouts
  take_payouts w now h (err e) = (count_payouts h (categorize_error e), some (request e))
  take_payouts w now h (ok response) =
      store_payouts h (build_payout_snapshot w.start w.end fold response now)

  -- `asked` and `now` are what the clock shows before the request and behind it.
  unfoldable pub poll_rewards :
      HistoryClient → (asked now : Time) → History → History × Option (PollError String)
  unfolding date_window take_rewards
  poll_rewards client asked now h =
      let w = date_window date_only settings.history_days asked in
      take_rewards w now h (client.fetch_rewards settings.coin w.from_date w.to_date)

  unfoldable pub poll_payouts :
      HistoryClient → (asked now : Time) → History → History × Option (PollError String)
  unfolding date_window take_payouts
  poll_payouts client asked now h =
      let w = date_window date_only settings.history_days asked in
      take_payouts w now h (client.fetch_payouts settings.coin w.from_date w.to_date)

  abbrev errors : Option (PollError String) → List (PollError String)
  errors none = []
  errors (some e) = e ∷ []

  -- `Poll`: the enabled endpoints in turn, whatever the first one returns. The four times are those of
  -- the two polls; the errors are joined.
  unfoldable pub poll_history :
      HistoryClient → (asked now asked' now' : Time) → History → History × List (PollError String)
  unfolding poll_rewards poll_payouts
  poll_history client asked now asked' now' h =
      let (h1, e1) =
        if settings.rewards_enabled then poll_rewards client asked now h else (h, none) in
      let (h2, e2) =
        if settings.payouts_enabled then poll_payouts client asked' now' h1 else (h1, none) in
      (h2, errors e1 ++ errors e2)
