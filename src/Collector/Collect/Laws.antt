-- ===== src/Collector/Collect/Laws.antt =====
-- The series of the pool, the account and the history.
use braiins_pool_exporter.Base.{ℕ, ◌≡◌, refl, List, [], ◌∷◌, map, Option, none, some, arith}
use braiins_pool_exporter.Base.Different.{Different}
use braiins_pool_exporter.Base.Float.{Float64}
use braiins_pool_exporter.Base.Time.{Time}
use braiins_pool_exporter.Text.{Text, Map, codes, ◌==◌, contains}
use braiins_pool_exporter.Collector.Cache.{Cache}
use braiins_pool_exporter.Collector.Pool.{PoolSnapshot}
use braiins_pool_exporter.Collector.Account.{AccountSnapshot}
use braiins_pool_exporter.Collector.Collect.{
  Key, Sample, pool_samples, collect_pool, account_states, account_samples, collect_account, if_any,
  account_workers_desc, sample, pool_active_workers_desc, pool_windows, account_windows,
  account_state_values, pool_hashrate_desc, pool_source_update_timestamp_desc,
  account_hashrate_desc, account_balance_desc,
}
use braiins_pool_exporter.Collector.Collect.Keys.{keys_of, all_different, all_different-Different}
use braiins_pool_exporter.Collector.Collect.Series.{
  rank_of, keys, Series, Series-append, Series-nil, Series-wider, Series-optional, Series-map,
  Series-requests, Series-windows, Series-freshness, by_endpoint,
}

abbrev state_key : Text → Key
state_key state = record { desc = account_workers_desc; labels = state ∷ [] }

state_key-injective : (t u : Text) → state_key t ≡ state_key u → t ≡ u
state_key-injective t u e = cc

module _ (fl : Float64) (fold : Text → Text) (clock : Key → Time) where
  -- The samples of a snapshot, if there is one.
  pub Series-if_any :
      {S : Type 0} (low high : ℕ) (samples : S → List (Sample fl fold)) (s : Option S)
      → ((t : S) → s ≡ some t → Series fl fold low high (samples t))
      → Series fl fold low high (if_any fl fold clock samples s)
  Series-if_any low high samples none h = Series-nil fl fold low high
  Series-if_any low high samples (some t) h = h t refl

  pool_samples-Series :
      (s : PoolSnapshot fl fold) → Series fl fold 101 106 (pool_samples fl fold clock s)
  unfolding pool_samples rank_of by_endpoint ◌==◌ all_different contains
  pool_samples-Series s =
      Series-append fl fold 101 102 106 _ _
        (Series-windows fl fold pool_hashrate_desc [] pool_windows 101 s.hashrates (λ ls. refl)
          (all_different-Different pool_windows refl))
        (Series-append fl fold 102 103 106
          (sample fl fold pool_active_workers_desc [] s.active_workers ∷ []) _
          (Series-optional fl fold pool_active_workers_desc [] 102 (some s.active_workers) refl)
          (Series-append fl fold 103 104 106 _ _
            (Series-optional fl fold pool_source_update_timestamp_desc [] 103 s.source_update_ts
              refl)
            (Series-freshness fl fold clock (codes "pool_stats") 104 s.collected_at refl refl)
            (omega arith) (omega arith))
          (omega arith) (omega arith))
        (omega arith) (omega arith)

  pub collect_pool-Series :
      (c : Cache (PoolSnapshot fl fold))
      → Different (keys_of c.requests)
      → Series fl fold 100 200 (collect_pool fl fold clock c)
  unfolding collect_pool rank_of by_endpoint ◌==◌
  collect_pool-Series c d =
      Series-append fl fold 100 101 200 _ _
        (Series-requests fl fold (codes "pool_stats") 100 c.requests (λ t. refl) d)
        (Series-if_any 101 200 (pool_samples fl fold clock) c.last_good (λ s e.
          Series-wider fl fold 101 101 106 200 _ (pool_samples-Series s) (omega arith)
            (omega arith)))
        (omega arith) (omega arith)

  keys-account_states :
      (workers : Map fl.F) (states : List Text)
      → keys fl fold (account_states fl fold clock workers states) ≡ map state_key states
  unfolding account_states
  keys-account_states workers [] = refl
  keys-account_states workers (t ∷ ts) = rw (keys-account_states workers ts)

  account_samples-Series :
      (s : AccountSnapshot fl fold) → Series fl fold 201 206 (account_samples fl fold clock s)
  unfolding account_samples rank_of by_endpoint ◌==◌ all_different contains
  account_samples-Series s =
      Series-append fl fold 201 202 206 _ _
        (Series-windows fl fold account_hashrate_desc [] account_windows 201 s.hashrates
          (λ ls. refl) (all_different-Different account_windows refl))
        (Series-append fl fold 202 203 206 _ _
          (Series-optional fl fold account_balance_desc [] 202 s.balance_btc refl)
          (Series-append fl fold 203 204 206 _ _
            (Series-map fl fold state_key 203 account_state_values
              (account_states fl fold clock s.workers account_state_values)
              (λ t u e. state_key-injective t u e) (λ t. refl)
              (all_different-Different account_state_values refl)
              (keys-account_states s.workers account_state_values))
            (Series-freshness fl fold clock (codes "profile") 204 s.collected_at refl refl)
            (omega arith) (omega arith))
          (omega arith) (omega arith))
        (omega arith) (omega arith)

  pub collect_account-Series :
      (c : Cache (AccountSnapshot fl fold))
      → Different (keys_of c.requests)
      → Series fl fold 200 300 (collect_account fl fold clock c)
  unfolding collect_account rank_of by_endpoint ◌==◌
  collect_account-Series c d =
      Series-append fl fold 200 201 300 _ _
        (Series-requests fl fold (codes "profile") 200 c.requests (λ t. refl) d)
        (Series-if_any 201 300 (account_samples fl fold clock) c.last_good (λ s e.
          Series-wider fl fold 201 201 206 300 _ (account_samples-Series s) (omega arith)
            (omega arith)))
        (omega arith) (omega arith)
