-- ===== src/Collector/Collect/Series.antt =====
-- The series that a collector exposes, by blocks. A rank tells the blocks of all collectors apart: by
-- the metric, and by the endpoint where collectors share a metric.
use mathlib.Core.List.{map-append}
use braiins_pool_exporter.Base.{
  ℕ, suc, ◌≤◌, ◌<◌, ◌≡◌, refl, ap, Bool, true, false, List, [], ◌∷◌, ◌++◌, map, Option, none, some,
  arith, All, keep, if◌then◌else◌, Option-cases, inl, inr,
}
use braiins_pool_exporter.Base.Different.{
  Different, Different-append, Different-map, Different-keep, All-map, All-mono, Block,
  Block-append,
}
use braiins_pool_exporter.Base.Float.{Float64}
use braiins_pool_exporter.Base.Time.{Time}
use braiins_pool_exporter.Text.{Text, Map, codes, ◌==◌, lookup}
use braiins_pool_exporter.Collector.Counters.{Counters}
use braiins_pool_exporter.Collector.Collect.{
  Desc, Key, Sample, result_samples, request_samples, window_samples, optional, freshness,
  sorted_counter_keys, api_requests_total_desc, api_last_success_desc, data_age_desc,
  pool_hashrate_desc, pool_active_workers_desc, pool_source_update_timestamp_desc,
  account_hashrate_desc, account_balance_desc, account_workers_desc, worker_state_desc,
  worker_hashrate_desc, worker_shares_desc, worker_last_share_timestamp_desc,
  worker_last_share_age_desc, reward_daily_desc, payout_amount_desc, payout_fee_desc,
}
use braiins_pool_exporter.Collector.Collect.Keys.{keys_of, Different-sorted}

-- A number by the endpoint that the first label names.
unfoldable pub by_endpoint : (pool profile workers rewards payouts : ℕ) → List Text → ℕ
unfolding ◌==◌
by_endpoint pool profile workers rewards payouts [] = 0
by_endpoint pool profile workers rewards payouts (endpoint ∷ labels) =
    if endpoint == codes "pool_stats"
    then pool
    else if endpoint == codes "profile"
    then profile
    else if endpoint == codes "workers"
    then workers
    else if endpoint == codes "rewards"
    then rewards
    else payouts

unfoldable pub rank_of : Desc → List Text → ℕ
unfolding by_endpoint
rank_of api_requests_total_desc labels = by_endpoint 100 200 300 401 400 labels
rank_of api_last_success_desc labels = by_endpoint 104 204 306 403 406 labels
rank_of data_age_desc labels = by_endpoint 105 205 307 404 407 labels
rank_of pool_hashrate_desc labels = 101
rank_of pool_active_workers_desc labels = 102
rank_of pool_source_update_timestamp_desc labels = 103
rank_of account_hashrate_desc labels = 201
rank_of account_balance_desc labels = 202
rank_of account_workers_desc labels = 203
rank_of worker_state_desc labels = 301
rank_of worker_hashrate_desc labels = 302
rank_of worker_shares_desc labels = 303
rank_of worker_last_share_timestamp_desc labels = 304
rank_of worker_last_share_age_desc labels = 305
rank_of reward_daily_desc labels = 402
rank_of payout_amount_desc labels = 405
rank_of payout_fee_desc labels = 405

abbrev pub rank : Key → ℕ
rank k = rank_of k.desc k.labels

abbrev is_some : {V : Type 0} → Option V → Bool
is_some none = false
is_some (some v) = true

abbrev pub has : {V : Type 0} → Map V → Text → Bool
has m key = is_some (lookup m key)

module _ (fl : Float64) (fold : Text → Text) where
  open fl use {F}

  abbrev pub keys : List (Sample fl fold) → List Key
  keys samples = map (λ (s : Sample fl fold). s.key) samples

  unfoldable pub Series : ℕ → ℕ → List (Sample fl fold) → Type 0
  Series low high samples = Block rank low high (keys samples)

  pub Series-append :
      (low middle high : ℕ) (xs ys : List (Sample fl fold))
      → Series low middle xs
      → Series middle high ys
      → low ≤ middle
      → middle ≤ high
      → Series low high (xs ++ ys)
  unfolding Series
  Series-append low middle high xs ys bx by l h =
      rw map-append (Block-append rank low middle high (keys xs) (keys ys) bx by l h)

  pub All-keys :
      (P : Key → Type 0) (xs ys : List (Sample fl fold))
      → All P (keys xs)
      → All P (keys ys)
      → All P (keys (xs ++ ys))
  All-keys P [] ys h k = k
  All-keys P (x ∷ xs) ys h k = (h.0, All-keys P xs ys h.1 k)

  pub Different-keys :
      (P : Key → Type 0) (xs ys : List (Sample fl fold))
      → All P (keys xs)
      → All (λ k. P k → ⊥) (keys ys)
      → Different (keys xs)
      → Different (keys ys)
      → Different (keys (xs ++ ys))
  Different-keys P xs ys hx hy dx dy =
      rw map-append (Different-append P (keys xs) (keys ys) hx hy dx dy)

  pub Series-nil : (low high : ℕ) → Series low high []
  unfolding Series
  Series-nil low high = record { ranks = tt; different = tt }

  pub Series-wider :
      (low low' high high' : ℕ) (xs : List (Sample fl fold))
      → Series low high xs
      → low' ≤ low
      → high ≤ high'
      → Series low' high' xs
  unfolding Series
  Series-wider low low' high high' xs b l h = record {
    ranks = All-mono _ _ (λ x r. omega arith) (keys xs) b.ranks;
    different = b.different;
  }

  -- One sample, or none.
  pub Series-optional :
      (desc : Desc) (labels : List Text) (n : ℕ) (value : Option F)
      → rank_of desc labels ≡ n
      → Series n (suc n) (optional fl fold desc labels value)
  unfolding Series
  Series-optional desc labels n none e = record { ranks = tt; different = tt }
  Series-optional desc labels n (some v) e = record {
    ranks = (omega (arith, e), tt);
    different = (tt, tt);
  }

  -- Samples whose keys are those of different texts.
  pub Series-map :
      (key : Text → Key) (n : ℕ) (ts : List Text) (xs : List (Sample fl fold))
      → ((t u : Text) → key t ≡ key u → t ≡ u)
      → ((t : Text) → rank (key t) ≡ n)
      → Different ts
      → keys xs ≡ map key ts
      → Series n (suc n) xs
  unfolding Series
  Series-map key n ts xs inj level d e = rw e (record {
    ranks = All-map key (λ k. (n ≤ rank k) × (rank k < suc n)) ts (every ts);
    different = Different-map key inj ts d;
  })
    where
      every : (us : List Text) → All (λ t. (n ≤ rank (key t)) × (rank (key t) < suc n)) us
      every [] = tt
      every (u ∷ us) = (omega (arith, level u), every us)

  keys-result_samples :
      (endpoint : Text) (requests : Counters) (results : List Text)
      → keys (result_samples fl fold endpoint requests results)
        ≡ map
            (λ result. record { desc = api_requests_total_desc; labels = endpoint ∷ result ∷ [] })
            results
  unfolding result_samples
  keys-result_samples endpoint requests [] = refl
  keys-result_samples endpoint requests (r ∷ rs) = rw (keys-result_samples endpoint requests rs)

  pub Series-requests :
      (endpoint : Text) (n : ℕ) (requests : Counters)
      → ((t : Text) → rank_of api_requests_total_desc (endpoint ∷ t ∷ []) ≡ n)
      → Different (keys_of requests)
      → Series n (suc n) (request_samples fl fold endpoint requests)
  unfolding request_samples
  Series-requests endpoint n requests level d =
      Series-map _ n (sorted_counter_keys requests) _ (λ t u e. cc) level
        (Different-sorted requests d)
        (keys-result_samples endpoint requests (sorted_counter_keys requests))

  keys-window_samples :
      (desc : Desc) (labels windows : List Text) (values : Map F)
      → keys (window_samples fl fold desc labels windows values)
        ≡ map
            (λ window. record { desc = desc; labels = labels ++ window ∷ [] })
            (keep (has values) windows)
  unfolding window_samples
  keys-window_samples desc labels [] values = refl
  keys-window_samples desc labels (w ∷ ws) values = elim (Option-cases (lookup values w)) [
    | inl missing ↦ rw missing (keys-window_samples desc labels ws values)
    | inr (v, found) ↦ rw found (rw (keys-window_samples desc labels ws values) refl)
  ]

  snoc-injective : (labels : List Text) (t u : Text) → labels ++ t ∷ [] ≡ labels ++ u ∷ [] → t ≡ u
  snoc-injective [] t u e = cc
  snoc-injective (l ∷ labels) t u e = snoc-injective labels t u cc

  pub Series-windows :
      (desc : Desc) (labels windows : List Text) (n : ℕ) (values : Map F)
      → ((ls : List Text) → rank_of desc ls ≡ n)
      → Different windows
      → Series n (suc n) (window_samples fl fold desc labels windows values)
  Series-windows desc labels windows n values level d =
      Series-map (λ window. record { desc = desc; labels = labels ++ window ∷ [] }) n
        (keep (has values) windows) _
        (λ t u e. snoc-injective labels t u (ap (λ (k : Key). k.labels) e))
        (λ t. level (labels ++ t ∷ [])) (Different-keep (has values) windows d)
        (keys-window_samples desc labels windows values)

  pub Series-freshness :
      (clock : Key → Time) (endpoint : Text) (n : ℕ) (at : Time)
      → rank_of api_last_success_desc (endpoint ∷ []) ≡ n
      → rank_of data_age_desc (endpoint ∷ []) ≡ suc n
      → Series n (suc (suc n)) (freshness fl fold clock endpoint at)
  unfolding Series freshness
  Series-freshness clock endpoint n at e f = record {
    ranks = (omega (arith, e), (omega (arith, f), tt));
    different = (((λ same. cc), tt), (tt, tt));
  }
