-- ===== src/Collector/History/Rewards.antt =====
-- `buildRewardSnapshot` and what it calls. The components are a closed set of labels, so a sum is a
-- function of the component.
pub mod Sums
pub mod Identity
pub mod Tests
use braiins_pool_exporter.Base.{
  ℕ, String, Bool, true, false, not, ◌&&◌, List, [], ◌∷◌, ◌++◌, Option, none, some, ltb,
  if◌then◌else◌, length,
}
use braiins_pool_exporter.Base.Int.{ℤ, pos, eqb_ℤ}
use braiins_pool_exporter.Base.Result.{Result, ok, err, ◌>>=◌, ◌>>◌, fail_if}
use braiins_pool_exporter.Base.Time.{Time}
use braiins_pool_exporter.Text.{Text, ◌==◌, contains, join, lookup, to_lower}
use braiins_pool_exporter.Text.Numbers.{format_int}
use braiins_pool_exporter.Braiins.Types.{
  CoinEnvelope, DailyReward, Decimal, RewardsResponse, SharePrice,
}
use braiins_pool_exporter.Collector.Pool.{option_or}
use braiins_pool_exporter.Collector.History.Decimal.{Rat, rat_zero, rat_add, decimal_to_rat}
use braiins_pool_exporter.Collector.History.Window.{timestamp_in_window}

pub data Component : Type 0 where
  total mining bos_plus referral_bonus referral_reward : Component

abbrev pub same_component : Component → Component → Bool
same_component total total = true
same_component mining mining = true
same_component bos_plus bos_plus = true
same_component referral_bonus referral_bonus = true
same_component referral_reward referral_reward = true
same_component _ _ = false

abbrev pub Components : Type 0
Components = Component → Rat

pub record RewardSnapshot : Type 0 where
  pub collected_at : Time
  pub components : Components

abbrev pub max_reward_records : ℕ
max_reward_records = 1000

abbrev pub zero_reward_components : Components
zero_reward_components component = rat_zero

unfoldable pub reward_timestamp : DailyReward → ℤ
reward_timestamp r = if not (eqb_ℤ r.date (pos 0)) then r.date else r.calculation_date

unfoldable pub price_parts : List SharePrice → List Text
unfolding format_int
price_parts [] = []
price_parts (price ∷ prices) =
    format_int price.from_ts ∷ format_int price.to_ts ∷ price.share_price ∷ price_parts prices

unfoldable pub reward_dedup_key : DailyReward → Text
unfolding join format_int price_parts
reward_dedup_key r =
    join
      ((format_int r.date
          ∷ format_int r.calculation_date
          ∷ r.total_reward
          ∷ r.mining_reward
          ∷ r.bos_plus_reward
          ∷ r.referral_bonus
          ∷ r.referral_reward
          ∷ r.shares
          ∷ [])
        ++ price_parts r.share_prices)
      (0 ∷ [])

-- The decimals of one reward, of which the loop adds those that are not blank.
unfoldable pub reward_decimals : DailyReward → List (Component × Decimal)
reward_decimals r =
    (total, r.total_reward)
    ∷ (mining, r.mining_reward)
    ∷ (bos_plus, r.bos_plus_reward)
    ∷ (referral_bonus, r.referral_bonus)
    ∷ (referral_reward, r.referral_reward)
    ∷ []

-- `components[component].Add(components[component], parsed)`
unfoldable pub add_to : Components → Component → Rat → Components
unfolding rat_add
add_to components component parsed c =
    if same_component c component then rat_add (components c) parsed else components c

abbrev or_invalid : {A : Type 0} → Result String A → Result String A
or_invalid (ok a) = ok a
or_invalid (err m) = err "Braiins rewards response has invalid reward decimal"

unfoldable pub add_decimals : List (Component × Decimal) → Components → Result String Components
unfolding ◌==◌ decimal_to_rat add_to
add_decimals [] components = ok components
add_decimals ((component, value) ∷ rest) components =
    let skip = add_decimals rest components in
    let add = or_invalid (decimal_to_rat value) >>= λ parsed.
    add_decimals rest (add_to components component parsed) in
    if value == [] then skip else add

module _ (start end : Time) where
  -- The loop over the rewards, with the keys seen so far.
  unfoldable pub reward_loop : List DailyReward → List Text → Components → Result String Components
  unfolding timestamp_in_window reward_timestamp reward_dedup_key contains add_decimals
      reward_decimals
  reward_loop [] seen components = ok components
  reward_loop (reward ∷ rewards) seen components =
      let skip = reward_loop rewards seen components in
      let key = reward_dedup_key reward in
      let add = add_decimals (reward_decimals reward) components >>= λ components'.
      reward_loop rewards (key ∷ seen) components' in
      if not (timestamp_in_window (reward_timestamp reward) start end)
      then skip
      else if contains seen key
      then skip
      else add

  unfoldable pub build_reward_snapshot :
      (Text → Text) → Text → Time → CoinEnvelope RewardsResponse → Result String RewardSnapshot
  unfolding lookup to_lower reward_loop option_or
  build_reward_snapshot fold coin collected_at envelope = do
    response ←
        option_or "Braiins rewards response missing configured coin"
          (lookup envelope (to_lower fold coin))
    fail_if (ltb max_reward_records (length response.daily_rewards))
        "Braiins rewards response exceeds record limit"
    components ← reward_loop response.daily_rewards [] zero_reward_components
    ok (record { collected_at = collected_at; components = components })
