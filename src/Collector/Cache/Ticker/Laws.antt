-- ===== src/Collector/Cache/Ticker/Laws.antt =====
-- The runs of the collectors, over their polls.
use braiins_pool_exporter.Base.{
  ℕ, zero, suc, ◌+◌, ◌≡◌, refl, ◌∙◌, ap, Bool, List, [], ◌∷◌, if◌then◌else◌, Bool-cases, inl, inr,
}
use braiins_pool_exporter.Base.Int.{ℤ}
use braiins_pool_exporter.Base.Result.{Result}
use braiins_pool_exporter.Base.Time.{Time}
use braiins_pool_exporter.Text.{Text}
use braiins_pool_exporter.Braiins.Errors.{ClientError}
use braiins_pool_exporter.Collector.Cache.{Cache, empty_cache, poll}
use braiins_pool_exporter.Collector.Cache.Trace.{Event, cache_after}
use braiins_pool_exporter.Collector.Cache.Ticker.{ticked, run_ticker, polled, run_ticker-polled}
use braiins_pool_exporter.Collector.History.Poll.{
  HistoryClient, Settings, History, empty_history, poll_history,
}
use braiins_pool_exporter.Collector.History.Poll.Trace.{
  HistoryEvent, rewards_polled, payouts_polled, history_after,
}

module _ {R B S : Type 0} (build : Time → R → Result B S) (invalid_category : B → Text)
    (collected_at : S → Time) (event : ℕ → Time × Result ClientError R) where
  -- `event` tells by the number of a poll what it meets.
  abbrev pub poll_cache : ℕ → Cache S → Cache S
  poll_cache k c = (poll (build (event k).0) invalid_category collected_at c (event k).1).0

  -- The first polls, the last of them first.
  abbrev first_polls : ℕ → List (Event build invalid_category collected_at)
  first_polls zero = []
  first_polls (suc k) = event k ∷ first_polls k

  polled-cache_after :
      (k : ℕ)
      → polled poll_cache k empty_cache
        ≡ cache_after build invalid_category collected_at (first_polls k)
  unfolding cache_after
  polled-cache_after zero = refl
  polled-cache_after (suc k) = ap (poll_cache k) (polled-cache_after k)

  -- The cache behind a run of the pool, the account or the workers is that behind one poll more than
  -- there were ticks.
  pub run_ticker-cache_after :
      (ticks : List Bool)
      → run_ticker poll_cache ticks empty_cache
        ≡ cache_after build invalid_category collected_at (first_polls (ticked ticks + 1))
  run_ticker-cache_after ticks =
      run_ticker-polled poll_cache ticks empty_cache ∙ polled-cache_after (ticked ticks + 1)

-- A round of the history: the client, and the clock of its two polls.
pub record Round : Type 0 where
  pub client : HistoryClient
  pub asked : Time
  pub now : Time
  pub asked' : Time
  pub now' : Time

module _ (fold : Text → Text) (date_only : ℤ → Text) (settings : Settings) (round : ℕ → Round) where
  abbrev pub poll_round : ℕ → History → History
  poll_round k h =
      let r = round k in
      (poll_history fold date_only settings r.client r.asked r.now r.asked' r.now' h).0

  abbrev polls_of : Round → List HistoryEvent → List HistoryEvent
  polls_of r earlier =
      let first =
        if settings.rewards_enabled
        then rewards_polled r.client r.asked r.now ∷ earlier
        else earlier in
      if settings.payouts_enabled then payouts_polled r.client r.asked' r.now' ∷ first else first

  -- The polls of the first rounds, the last of them first: of a round those that are enabled.
  abbrev pub first_rounds : ℕ → List HistoryEvent
  first_rounds zero = []
  first_rounds (suc k) = polls_of (round k) (first_rounds k)

  poll_history-history_after :
      (r : Round) (earlier : List HistoryEvent)
      → (poll_history fold date_only settings r.client r.asked r.now r.asked' r.now'
          (history_after fold date_only settings earlier)).0
        ≡ history_after fold date_only settings (polls_of r earlier)
  unfolding poll_history history_after
  poll_history-history_after r earlier = elim (Bool-cases settings.rewards_enabled) [
    | inl on ↦ elim (Bool-cases settings.payouts_enabled) [
      | inl on' ↦ rw (on, on') refl
      | inr off' ↦ rw (on, off') refl
    ]
    | inr off ↦ elim (Bool-cases settings.payouts_enabled) [
      | inl on' ↦ rw (off, on') refl
      | inr off' ↦ rw (off, off') refl
    ]
  ]

  polled-history_after :
      (k : ℕ)
      → polled poll_round k empty_history ≡ history_after fold date_only settings (first_rounds k)
  unfolding history_after
  polled-history_after zero = refl
  polled-history_after (suc k) =
      ap (poll_round k) (polled-history_after k)
      ∙ poll_history-history_after (round k) (first_rounds k)

  -- The history behind a run is that behind the enabled polls of one round more than there were ticks.
  pub run_ticker-history_after :
      (ticks : List Bool)
      → run_ticker poll_round ticks empty_history
        ≡ history_after fold date_only settings (first_rounds (ticked ticks + 1))
  run_ticker-history_after ticks =
      run_ticker-polled poll_round ticks empty_history ∙ polled-history_after (ticked ticks + 1)
