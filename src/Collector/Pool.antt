-- ===== src/Collector/Pool.antt =====
-- internal/collector/pool.go: the pool-wide snapshot.
use braiins_pool_exporter.Base.{◌≡◌, String, not, [], ◌∷◌, Option, none, some, if◌then◌else◌}
use braiins_pool_exporter.Base.Int.{pos, ltb_ℤ}
use braiins_pool_exporter.Base.Float.{Float64}
use braiins_pool_exporter.Base.Result.{Result, ok, err, ◌>>=◌, ◌>>◌, fail_if}
use braiins_pool_exporter.Base.Time.{Time}
use braiins_pool_exporter.Text.{Text, Map, codes, ◌==◌, lookup, trim_space, to_lower}
use braiins_pool_exporter.Braiins.Types.{CoinEnvelope, PoolStats}
use braiins_pool_exporter.Braiins.Errors.{ClientError}
use braiins_pool_exporter.Collector.Cache.{Cache, PollError, poll}
use braiins_pool_exporter.Collector.Decimals.{parse_windows}

-- `strings.ToLower(strings.TrimSpace(coin))`, with btc for a blank: each collector does it alike.
unfoldable pub normalize_coin : (Text → Text) → Text → Text
unfolding trim_space to_lower ◌==◌
normalize_coin fold coin =
    let text = to_lower fold (trim_space coin) in if text == [] then codes "btc" else text

unfoldable pub option_or : {E A : Type 0} → E → Option A → Result E A
option_or e none = err e
option_or e (some a) = ok a

pub option_or-ok : {E A : Type 0} (e : E) (o : Option A) {a : A} → option_or e o ≡ ok a → o ≡ some a
unfolding option_or
option_or-ok e none h = cc
option_or-ok e (some b) h = cc

module _ (fl : Float64) (fold : Text → Text) where
  open fl use {F, of_int, less}

  pub record PoolSnapshot : Type 0 where
    pub collected_at : Time
    pub hashrates : Map F
    pub active_workers : F
    pub source_update_ts : Option F

  unfoldable pub build_pool_snapshot :
      Text → Time → CoinEnvelope PoolStats → Result String PoolSnapshot
  unfolding lookup to_lower trim_space ◌==◌ parse_windows option_or
  build_pool_snapshot coin collected_at envelope = do
    stats ←
        option_or "Braiins pool stats response missing configured coin"
          (lookup envelope (to_lower fold coin))
    fail_if (not (trim_space stats.hash_rate_unit == codes "Gh/s"))
        "Braiins pool stats response has unsupported hashrate unit"
    workers ←
        option_or "Braiins pool stats response missing active workers" stats.pool_active_workers
    hashrates ← parse_windows fl "Braiins pool stats response has invalid hashrate value" (
        (codes "5m", stats.pool_hash_rate_5m)
        ∷ (codes "60m", stats.pool_hash_rate_60m)
        ∷ (codes "24h", stats.pool_hash_rate_24h)
        ∷ [])
    fail_if (less (of_int workers) (of_int (pos 0)))
        "Braiins pool stats response has invalid active workers"
    ok (record {
      collected_at = collected_at;
      hashrates = hashrates;
      active_workers = of_int workers;
      source_update_ts =
          if ltb_ℤ (pos 0) stats.update_ts then some (of_int stats.update_ts) else none;
    })

  -- `Poll`: `fetched` is what the client returns, `now` what the clock shows behind it.
  unfoldable pub pool_poll :
      Text
      → Time
      → Cache PoolSnapshot
      → Result ClientError (CoinEnvelope PoolStats)
      → Cache PoolSnapshot × Option (PollError String)
  unfolding poll build_pool_snapshot
  pool_poll coin now =
      poll (build_pool_snapshot coin now) (λ message. codes "invalid_data") (λ s. s.collected_at)
