-- ===== src/Collector/Collect/Past.antt =====
-- The series of the history, of which most are written out.
use braiins_pool_exporter.Base.{ℕ, ◌≡◌, refl, [], ◌∷◌, map, arith}
use braiins_pool_exporter.Base.Different.{Different, Different-image}
use braiins_pool_exporter.Base.Float.{Float64}
use braiins_pool_exporter.Base.Time.{Time}
use braiins_pool_exporter.Text.{Text, codes, ◌==◌, contains, join}
use braiins_pool_exporter.Collector.Counters.{Counters}
use braiins_pool_exporter.Collector.Workers.Labels.{sort_workers}
use braiins_pool_exporter.Collector.History.Rewards.{RewardSnapshot}
use braiins_pool_exporter.Collector.History.Payouts.{PayoutSnapshot}
use braiins_pool_exporter.Collector.History.Payouts.Labels.{payout_rails}
use braiins_pool_exporter.Collector.History.Poll.{History}
use braiins_pool_exporter.Collector.Collect.{
  Desc, Key, payout_amount_desc, payout_fee_desc, reward_daily_desc, request_samples,
}
use braiins_pool_exporter.Collector.Collect.History.{
  component_text, reward_components, component_samples, reward_samples, rail_samples,
  payout_samples, status_samples, endpoint_samples, collect_history,
}
use braiins_pool_exporter.Collector.Collect.Keys.{keys_of, all_different, all_different-Different}
use braiins_pool_exporter.Collector.Collect.Laws.{Series-if_any}
use braiins_pool_exporter.Collector.Collect.Series.{
  rank_of, by_endpoint, keys, Series, Series-append, Series-wider, Series-map, Series-requests,
  Series-freshness, Series-nil,
}

abbrev component_key : Text → Key
component_key t = record { desc = reward_daily_desc; labels = t ∷ [] }

component_key-injective : (t u : Text) → component_key t ≡ component_key u → t ≡ u
component_key-injective t u e = cc

-- A key of the payouts as one text.
abbrev metric : Desc → ℕ
metric payout_amount_desc = 1
metric payout_fee_desc = 2
metric _ = 0

unfoldable spelled : Key → Text
unfolding join
spelled k = metric k.desc ∷ join k.labels (0 ∷ [])

module _ (fl : Float64) (fold : Text → Text) (clock : Key → Time) where
  components-Series :
      (s : RewardSnapshot)
      → Series fl fold 402 403 (component_samples fl fold clock s reward_components)
  unfolding component_samples rank_of all_different contains ◌==◌
  components-Series s =
      Series-map fl fold component_key 402 (map component_text reward_components) _
        component_key-injective (λ t. refl)
        (all_different-Different (map component_text reward_components) refl) refl

  reward_samples-Series :
      (s : RewardSnapshot) → Series fl fold 402 405 (reward_samples fl fold clock s)
  unfolding reward_samples rank_of by_endpoint ◌==◌
  reward_samples-Series s =
      Series-append fl fold 402 403 405 _ _ (components-Series s)
        (Series-freshness fl fold clock (codes "rewards") 403 s.collected_at refl refl)
        (omega arith) (omega arith)

  rails-Series :
      (s : PayoutSnapshot) → Series fl fold 405 406 (rail_samples fl fold clock s payout_rails)
  unfolding rail_samples status_samples rank_of Series all_different contains ◌==◌ spelled
  rails-Series s = record {
    ranks = ground arith;
    different = Different-image spelled (keys fl fold (rail_samples fl fold clock s payout_rails)) (
        all_different-Different
          (map spelled (keys fl fold (rail_samples fl fold clock s payout_rails))) refl);
  }

  payout_samples-Series :
      (s : PayoutSnapshot) → Series fl fold 405 408 (payout_samples fl fold clock s)
  unfolding payout_samples rank_of by_endpoint ◌==◌
  payout_samples-Series s =
      Series-append fl fold 405 406 408 _ _ (rails-Series s)
        (Series-freshness fl fold clock (codes "payouts") 406 s.collected_at refl refl)
        (omega arith) (omega arith)

  endpoints-Series :
      (rewards payouts : Counters)
      → Different (keys_of rewards)
      → Different (keys_of payouts)
      → Series fl fold 400 402 (
          endpoint_samples fl fold clock
            (sort_workers ((codes "rewards", rewards) ∷ (codes "payouts", payouts) ∷ [])))
  unfolding endpoint_samples sort_workers rank_of by_endpoint ◌==◌
  endpoints-Series rewards payouts dr dp =
      Series-append fl fold 400 401 402 (request_samples fl fold (codes "payouts") payouts) _
        (Series-requests fl fold (codes "payouts") 400 payouts (λ t. refl) dp)
        (Series-append fl fold 401 402 402 (request_samples fl fold (codes "rewards") rewards) []
          (Series-requests fl fold (codes "rewards") 401 rewards (λ t. refl) dr)
          (Series-nil fl fold 402 402) (omega arith) (omega arith))
        (omega arith) (omega arith)

  pub collect_history-Series :
      (h : History)
      → Different (keys_of h.rewards_requests)
      → Different (keys_of h.payouts_requests)
      → Series fl fold 400 500 (collect_history fl fold clock h)
  unfolding collect_history
  collect_history-Series h dr dp =
      Series-append fl fold 400 402 500 _ _
        (endpoints-Series h.rewards_requests h.payouts_requests dr dp)
        (Series-append fl fold 402 405 500 _ _
          (Series-if_any fl fold clock 402 405 (reward_samples fl fold clock) h.rewards
            (λ s e. reward_samples-Series s))
          (Series-if_any fl fold clock 405 500 (payout_samples fl fold clock) h.payouts (λ s e.
            Series-wider fl fold 405 405 408 500 _ (payout_samples-Series s) (omega arith)
              (omega arith)))
          (omega arith) (omega arith))
        (omega arith) (omega arith)
