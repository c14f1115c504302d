-- ===== src/Collector/Describe/Fit/Past.antt =====
-- The samples of the history against the descriptors.
use braiins_pool_exporter.Base.{refl, List, [], ◌∷◌, All-append}
use braiins_pool_exporter.Base.Float.{Float64}
use braiins_pool_exporter.Base.Time.{Time}
use braiins_pool_exporter.Text.{Text, Map, codes}
use braiins_pool_exporter.Collector.Counters.{Counters}
use braiins_pool_exporter.Collector.Workers.Labels.{sort_workers}
use braiins_pool_exporter.Collector.History.Poll.{History}
use braiins_pool_exporter.Collector.History.Payouts.{PayoutSnapshot}
use braiins_pool_exporter.Collector.History.Payouts.Labels.{
  Rail, PayoutStatus, payout_rails, payout_statuses,
}
use braiins_pool_exporter.Collector.History.Rewards.{Component, RewardSnapshot}
use braiins_pool_exporter.Collector.Collect.{Key, freshness, request_samples}
use braiins_pool_exporter.Collector.Collect.History.{
  endpoint_samples, component_samples, reward_samples, status_samples, rail_samples, payout_samples,
  collect_history, reward_components,
}
use braiins_pool_exporter.Collector.Describe.{label_names, describe_account, describe_history}
use braiins_pool_exporter.Collector.Describe.Laws.{
  IsFit, AreFit, request_samples-AreFit, freshness-AreFit, if_any-AreFit,
}
use braiins_pool_exporter.Collector.Describe.Fit.{places, Shared-append, history_descs}

module _ (fl : Float64) (fold : Text → Text) (clock : Key → Time) where
  endpoint_samples-AreFit :
      (counters : Map Counters)
      → AreFit fl fold history_descs (endpoint_samples fl fold clock counters)
  unfolding endpoint_samples
  endpoint_samples-AreFit [] = tt
  endpoint_samples-AreFit ((endpoint, requests) ∷ rest) =
      All-append (IsFit fl fold history_descs) (request_samples fl fold endpoint requests)
        (endpoint_samples fl fold clock rest)
        (request_samples-AreFit fl fold history_descs endpoint requests
          (Shared-append describe_history))
        (endpoint_samples-AreFit rest)

  component_samples-AreFit :
      (s : RewardSnapshot) (components : List Component)
      → AreFit fl fold history_descs (component_samples fl fold clock s components)
  unfolding component_samples label_names describe_history describe_account
  component_samples-AreFit s [] = tt
  component_samples-AreFit s (component ∷ components) =
      ((refl, search places depth 9), component_samples-AreFit s components)

  reward_samples-AreFit :
      (s : RewardSnapshot) → AreFit fl fold history_descs (reward_samples fl fold clock s)
  unfolding reward_samples
  reward_samples-AreFit s =
      All-append (IsFit fl fold history_descs) (component_samples fl fold clock s reward_components)
        (freshness fl fold clock (codes "rewards") s.collected_at)
        (component_samples-AreFit s reward_components)
        (freshness-AreFit fl fold history_descs clock (codes "rewards") s.collected_at
          (Shared-append describe_history))

  status_samples-AreFit :
      (s : PayoutSnapshot) (rail : Rail) (statuses : List PayoutStatus)
      → AreFit fl fold history_descs (status_samples fl fold clock s rail statuses)
  unfolding status_samples label_names describe_history describe_account
  status_samples-AreFit s rail [] = tt
  status_samples-AreFit s rail (status ∷ statuses) = (
    (refl, search places depth 9),
    ((refl, search places depth 9), status_samples-AreFit s rail statuses),
  )

  rail_samples-AreFit :
      (s : PayoutSnapshot) (rails : List Rail)
      → AreFit fl fold history_descs (rail_samples fl fold clock s rails)
  unfolding rail_samples
  rail_samples-AreFit s [] = tt
  rail_samples-AreFit s (rail ∷ rails) =
      All-append (IsFit fl fold history_descs) (status_samples fl fold clock s rail payout_statuses)
        (rail_samples fl fold clock s rails) (status_samples-AreFit s rail payout_statuses)
        (rail_samples-AreFit s rails)

  payout_samples-AreFit :
      (s : PayoutSnapshot) → AreFit fl fold history_descs (payout_samples fl fold clock s)
  unfolding payout_samples
  payout_samples-AreFit s =
      All-append (IsFit fl fold history_descs) (rail_samples fl fold clock s payout_rails)
        (freshness fl fold clock (codes "payouts") s.collected_at)
        (rail_samples-AreFit s payout_rails)
        (freshness-AreFit fl fold history_descs clock (codes "payouts") s.collected_at
          (Shared-append describe_history))

  pub collect_history-AreFit :
      (h : History) → AreFit fl fold history_descs (collect_history fl fold clock h)
  unfolding collect_history
  collect_history-AreFit h =
      All-append (IsFit fl fold history_descs) _ _
        (endpoint_samples-AreFit (
          sort_workers
            ((codes "rewards", h.rewards_requests) ∷ (codes "payouts", h.payouts_requests) ∷ [])))
        (All-append (IsFit fl fold history_descs) _ _
          (if_any-AreFit fl fold history_descs clock (reward_samples fl fold clock) h.rewards
            reward_samples-AreFit)
          (if_any-AreFit fl fold history_descs clock (payout_samples fl fold clock) h.payouts
            payout_samples-AreFit))
