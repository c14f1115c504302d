-- ===== src/Collector/Account.antt =====
-- internal/collector/account.go: the snapshot of the account.
use braiins_pool_exporter.Base.{String, not, [], ◌∷◌, Option, none, some, if◌then◌else◌}
use braiins_pool_exporter.Base.Float.{Float64}
use braiins_pool_exporter.Base.Result.{Result, ok, ◌>>=◌, ◌>>◌, fail_if}
use braiins_pool_exporter.Base.Time.{Time}
use braiins_pool_exporter.Text.{Text, Map, codes, ◌==◌, lookup, trim_space, to_lower}
use braiins_pool_exporter.Braiins.Types.{Decimal, ProfileResponse}
use braiins_pool_exporter.Braiins.Errors.{ClientError}
use braiins_pool_exporter.Collector.Cache.{Cache, PollError, poll}
use braiins_pool_exporter.Collector.Decimals.{decimal_to_float, parse_windows}
use braiins_pool_exporter.Collector.Pool.{option_or}

module _ (fl : Float64) (fold : Text → Text) where
  open fl use {F, of_int}

  pub record AccountSnapshot : Type 0 where
    pub collected_at : Time
    pub hashrates : Map F
    pub balance_btc : Option F
    pub workers : Map F

  -- The balance, which may be missing.
  unfoldable pub parse_balance : Decimal → Result String (Option F)
  unfolding ◌==◌ decimal_to_float option_or
  parse_balance value =
      if value == []
      then ok none
      else (option_or "Braiins account profile has invalid current balance"
            (decimal_to_float fl value)
          >>= λ parsed. ok (some parsed))

  unfoldable pub build_account_snapshot :
      Text → Time → ProfileResponse → Result String AccountSnapshot
  unfolding lookup to_lower trim_space ◌==◌ parse_windows parse_balance option_or
  build_account_snapshot coin collected_at response = do
    profile ←
        option_or "Braiins account profile missing configured coin"
          (lookup response.coins (to_lower fold coin))
    fail_if (not (trim_space profile.hash_rate_unit == codes "Gh/s"))
        "Braiins account profile has unsupported hashrate unit"
    hashrates ← parse_windows fl "Braiins account profile has invalid hashrate value" (
        (codes "5m", profile.hash_rate_5m)
        ∷ (codes "60m", profile.hash_rate_60m)
        ∷ (codes "24h", profile.hash_rate_24h)
        ∷ (codes "yesterday", profile.hash_rate_yesterday)
        ∷ [])
    balance ← parse_balance profile.current_balance
    ok (record {
      collected_at = collected_at;
      hashrates = hashrates;
      balance_btc = balance;
      workers =
          (codes "ok", of_int profile.ok_workers)
          ∷ (codes "low", of_int profile.low_workers)
          ∷ (codes "off", of_int profile.off_workers)
          ∷ (codes "dis", of_int profile.disabled_workers)
          ∷ [];
    })

  unfoldable pub account_poll :
      Text
      → Time
      → Cache AccountSnapshot
      → Result ClientError ProfileResponse
      → Cache AccountSnapshot × Option (PollError String)
  unfolding poll build_account_snapshot
  account_poll coin now =
      poll (build_account_snapshot coin now) (λ message. codes "invalid_data") (λ s. s.collected_at)
