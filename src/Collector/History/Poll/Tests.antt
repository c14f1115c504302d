-- ===== src/Collector/History/Poll/Tests.antt =====
-- The polls of the history at concrete inputs.
use braiins_pool_exporter.Base.{true, List, [], ◌∷◌}
use braiins_pool_exporter.Base.Int.{pos}
use braiins_pool_exporter.Base.Result.{ok, err}
use braiins_pool_exporter.Braiins.Errors.{decode}
use braiins_pool_exporter.Collector.History.Poll.{HistoryClient, Settings}
use braiins_pool_exporter.Collector.History.Poll.Trace.{
  HistoryEvent, rewards_polled, payouts_polled, history_after, reward_build, payout_build,
  reward_events, payout_events, Endpoint, history_after-Refines,
}
use braiins_pool_exporter.Collector.History.Tests.{as_it_is, no_text, btc, payouts, rewards}

-- The rewards cannot be read; the payouts can.
abbrev broken_rewards : HistoryClient
broken_rewards = record {
  fetch_rewards = λ coin from_date to_date. err decode;
  fetch_payouts = λ coin from_date to_date. ok payouts;
}

abbrev both_enabled : Settings
both_enabled = record {
  coin = btc;
  history_days = pos 7;
  rewards_enabled = true;
  payouts_enabled = true;
}

-- The rewards can be read too.
abbrev good_rewards : HistoryClient
good_rewards = record broken_rewards { fetch_rewards = λ coin from_date to_date. ok rewards }

-- The rewards were polled well and then not, with a poll of the payouts between.
abbrev three_polls : List HistoryEvent
three_polls =
    rewards_polled broken_rewards (pos 5) (pos 6)
    ∷ payouts_polled broken_rewards (pos 3) (pos 4)
    ∷ rewards_polled good_rewards (pos 1) (pos 2)
    ∷ []

history_after-Refines_example :
    let h = history_after as_it_is no_text both_enabled three_polls in
    Endpoint
      (reward_build as_it_is no_text both_enabled)
      (λ s. s.collected_at)
      h.rewards
      h.rewards_requests
      (reward_events as_it_is no_text both_enabled three_polls)
    × Endpoint
        (payout_build as_it_is no_text both_enabled)
        (λ s. s.collected_at)
        h.payouts
        h.payouts_requests
        (payout_events as_it_is no_text both_enabled three_polls)
history_after-Refines_example = history_after-Refines as_it_is no_text both_enabled three_polls
