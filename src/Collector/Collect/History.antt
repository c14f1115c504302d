-- ===== src/Collector/Collect/History.antt =====
-- `Collect` of internal/collector/history.go.
use braiins_pool_exporter.Base.{◌||◌, List, [], ◌∷◌, ◌++◌, if◌then◌else◌}
use braiins_pool_exporter.Base.Int.{pos}
use braiins_pool_exporter.Base.Float.{Float64}
use braiins_pool_exporter.Base.Time.{Time}
use braiins_pool_exporter.Text.{Text, Map, codes}
use braiins_pool_exporter.Collector.Counters.{Counters}
use braiins_pool_exporter.Collector.Workers.Labels.{sort_workers}
use braiins_pool_exporter.Collector.History.Decimal.{Rat}
use braiins_pool_exporter.Collector.History.Payouts.{PayoutSnapshot}
use braiins_pool_exporter.Collector.History.Payouts.Labels.{
  Rail, PayoutStatus, rail_text, status_text, payout_rails, payout_statuses,
}
use braiins_pool_exporter.Collector.History.Rewards
use braiins_pool_exporter.Collector.History.Rewards.{
  Component, mining, bos_plus, referral_bonus, referral_reward, RewardSnapshot,
}
use braiins_pool_exporter.Collector.History.Poll.{History}
use braiins_pool_exporter.Collector.Collect.{
  Key, Sample, sample, freshness, request_samples, if_any, reward_daily_desc, payout_amount_desc,
  payout_fee_desc,
}

abbrev pub component_text : Component → Text
component_text Rewards.total = codes "total"
component_text mining = codes "mining"
component_text bos_plus = codes "bos_plus"
component_text referral_bonus = codes "referral_bonus"
component_text referral_reward = codes "referral_reward"

abbrev pub reward_components : List Component
reward_components = Rewards.total ∷ mining ∷ bos_plus ∷ referral_bonus ∷ referral_reward ∷ []

module _ (fl : Float64) (fold : Text → Text) (clock : Key → Time) where
  open fl use {F, of_int, of_rat, is_inf, is_nan}

  unfoldable pub rat_to_float : Rat → F
  rat_to_float r =
      let parsed = of_rat r.num r.den in
      if is_inf parsed || is_nan parsed then of_int (pos 0) else parsed

  -- The counters of both endpoints, by the order of their names (`sortedEndpointKeys`).
  unfoldable pub endpoint_samples : Map Counters → List (Sample fl fold)
  unfolding request_samples
  endpoint_samples [] = []
  endpoint_samples ((endpoint, requests) ∷ rest) =
      request_samples fl fold endpoint requests ++ endpoint_samples rest

  unfoldable pub component_samples : RewardSnapshot → List Component → List (Sample fl fold)
  unfolding rat_to_float
  component_samples s [] = []
  component_samples s (component ∷ components) =
      sample fl fold reward_daily_desc (component_text component ∷ [])
        (rat_to_float (s.components component))
      ∷ component_samples s components

  unfoldable pub reward_samples : RewardSnapshot → List (Sample fl fold)
  unfolding component_samples freshness
  reward_samples s =
      component_samples s reward_components
      ++ freshness fl fold clock (codes "rewards") s.collected_at

  unfoldable pub status_samples : PayoutSnapshot → Rail → List PayoutStatus → List (Sample fl fold)
  status_samples s rail [] = []
  status_samples s rail (status ∷ statuses) =
      sample fl fold payout_amount_desc (rail_text rail ∷ status_text status ∷ [])
        (of_int (s.amounts rail status))
      ∷ sample fl fold payout_fee_desc (rail_text rail ∷ status_text status ∷ [])
          (of_int (s.fees rail status))
      ∷ status_samples s rail statuses

  unfoldable pub rail_samples : PayoutSnapshot → List Rail → List (Sample fl fold)
  unfolding status_samples
  rail_samples s [] = []
  rail_samples s (rail ∷ rails) = status_samples s rail payout_statuses ++ rail_samples s rails

  unfoldable pub payout_samples : PayoutSnapshot → List (Sample fl fold)
  unfolding rail_samples freshness
  payout_samples s =
      rail_samples s payout_rails ++ freshness fl fold clock (codes "payouts") s.collected_at

  unfoldable pub collect_history : History → List (Sample fl fold)
  unfolding endpoint_samples reward_samples payout_samples sort_workers
  collect_history h =
      endpoint_samples (
        sort_workers
          ((codes "rewards", h.rewards_requests) ∷ (codes "payouts", h.payouts_requests) ∷ []))
      ++ (if_any fl fold clock reward_samples h.rewards
          ++ if_any fl fold clock payout_samples h.payouts)
