-- ===== src/Collector/History/Tests.antt =====
-- The history's theorems at concrete inputs, and runs of its functions.
use mathlib.Core.List.{foldl}
use braiins_pool_exporter.Base.{
  suc, ◌*◌, ◌≡◌, refl, true, false, List, [], ◌∷◌, ◌++◌, none, some, arith, if◌then◌else◌, length,
}
use braiins_pool_exporter.Base.Int.{ℤ, pos, negsuc, ◌+ℤ◌, ◌-ℤ◌, ◌*ℤ◌, ◌≤ℤ◌}
use braiins_pool_exporter.Base.Int64.{max_int64, sub64}
use braiins_pool_exporter.Base.Result.{ok}
use braiins_pool_exporter.Base.Time.{day, unix, second}
use braiins_pool_exporter.Text.{Text, codes, lookup, to_lower, ◌==◌, trim, trim_space}
use braiins_pool_exporter.Text.Numbers.{digits_value, all_digits}
use braiins_pool_exporter.Braiins.Types.{
  Payout, PayoutsResponse, DailyReward, RewardsResponse, CoinEnvelope,
}
use braiins_pool_exporter.Collector.History.SafeAdd.{safe_add, safe_add_exact, is_int64}
use braiins_pool_exporter.Collector.History.Decimal.{
  Rat, rat_zero, rat_add, decimal_to_rat, parse_base10_int,
}
use braiins_pool_exporter.Collector.History.Decimal.Print.{parse_base10_int-format_int}
use braiins_pool_exporter.Text.Numbers.{format_int}
use braiins_pool_exporter.Collector.History.Decimal.Exponent.{signed}
use braiins_pool_exporter.Collector.History.Decimal.Value.{token, Represents, decimal_to_rat_value}
use braiins_pool_exporter.Collector.History.Window.{
  date_window, timestamp_in_window, date_window_bounds,
}
use braiins_pool_exporter.Collector.History.Payouts.{PayoutSnapshot, build_payout_snapshot}
use braiins_pool_exporter.Collector.History.Payouts.Labels.{onchain, confirmed}
use braiins_pool_exporter.Collector.History.Payouts.Sums.{total}
use braiins_pool_exporter.Collector.History.Payouts.Snapshot
use braiins_pool_exporter.Collector.History.Payouts.Snapshot.{build_payout_snapshot_exact}
use braiins_pool_exporter.Collector.History.Payouts.Fits.{build_payout_snapshot_total}
use braiins_pool_exporter.Collector.History.Rewards
use braiins_pool_exporter.Collector.History.Rewards.{
  Component, mining, RewardSnapshot, add_to, zero_reward_components, build_reward_snapshot,
}
use braiins_pool_exporter.Collector.History.Rewards.Sums.{
  values, decimals_of, build_reward_snapshot_exact,
}

abbrev pub as_it_is : Text → Text
as_it_is s = s

abbrev pub btc : Text
btc = codes "btc"

safe_add_exact_example :
    safe_add max_int64 (pos 1)
    ≡ (if is_int64 (max_int64 +ℤ pos 1) then some (max_int64 +ℤ pos 1) else none)
safe_add_exact_example = safe_add_exact max_int64 (pos 1) (omega arith) (omega arith)

safe_add_overflow : safe_add max_int64 (pos 1) ≡ none
unfolding safe_add ◌-ℤ◌ ◌+ℤ◌ sub64
safe_add_overflow = refl

-- -12.50e-2
abbrev twelve : Text
twelve = token true (codes "12") (codes "50") true (codes "2")

decimal_test : decimal_to_rat twelve ≡ ok (record { num = negsuc 1249; den = 10000 })
unfolding decimal_to_rat ◌-ℤ◌ ◌*ℤ◌ ◌==◌ trim_space trim digits_value
decimal_test = refl

decimal_to_rat_value_example :
    (r : Rat) × (decimal_to_rat twelve ≡ ok r)
    × Represents r true
        (digits_value 0 (codes "12" ++ codes "50"))
        (pos (length (codes "50")) -ℤ signed true (digits_value 0 (codes "2")))
unfolding digits_value all_digits
decimal_to_rat_value_example =
    decimal_to_rat_value true true (codes "12") (codes "50") (codes "2") refl refl (cc) (cc, refl)
      (omega arith)

-- The last second of an int64 becomes an instant long before the year 1.
seconds_of_times :
    (unix (pos 100) ≡ pos 100 *ℤ pos second)
    × (timestamp_in_window max_int64 (pos 0) (max_int64 *ℤ pos second) ≡ false)
unfolding unix timestamp_in_window ◌*ℤ◌ ◌-ℤ◌ ◌+ℤ◌
seconds_of_times = (refl, refl)

abbrev pub no_text : ℤ → Text
no_text d = []

date_window_bounds_example :
    let w = date_window no_text (pos (suc 6)) (pos 1_700_000_000_000_000_000) in
    (w.start ≤ℤ pos 1_700_000_000_000_000_000)
    × (pos 1_700_000_000_000_000_000 ≤ℤ w.end)
    × (w.end +ℤ pos 1 ≡ w.start +ℤ pos (suc 6 * day))
    × ((first : ℤ) × (w.start ≡ first *ℤ pos day) × (w.from_date ≡ no_text first))
    × ((last : ℤ) × (w.end +ℤ pos 1 ≡ (last +ℤ pos 1) *ℤ pos day) × (w.to_date ≡ no_text last))
date_window_bounds_example = date_window_bounds no_text 6 (pos 1_700_000_000_000_000_000)

abbrev payout : Payout
payout = record {
  financial_account_name = [];
  requested_at_ts = pos 100;
  resolved_at_ts = pos 0;
  status = codes "Confirmed ";
  amount_sats = pos 5000;
  fee_sats = pos 12;
  destination = [];
  tx_id = some (codes "ab");
  invoice = none;
  preimage = none;
  trigger_type = [];
}

-- One payout twice, and a payout of the other rail with the same identifier.
abbrev pub payouts : PayoutsResponse
payouts = record { onchain = payout ∷ payout ∷ []; lightning = payout ∷ [] }

build_payout_snapshot_total_example :
    (snapshot : PayoutSnapshot) × (build_payout_snapshot (pos 0) (pos day) as_it_is payouts (pos 7)
      ≡ ok snapshot)
build_payout_snapshot_total_example =
    build_payout_snapshot_total (pos 0) (pos day) as_it_is payouts (pos 7) (omega arith)
      (omega arith) (omega arith)

abbrev taken : PayoutSnapshot
taken = build_payout_snapshot_total_example.0

build_payout_snapshot_exact_example :
    (taken.amounts onchain confirmed
      ≡ total
          (pos 0)
          (pos day)
          as_it_is
          (λ p. p.amount_sats)
          confirmed
          (Snapshot.counted (pos 0) (pos day) as_it_is onchain (payout ∷ payout ∷ [])))
    × (taken.fees onchain confirmed
        ≡ total
            (pos 0)
            (pos day)
            as_it_is
            (λ p. p.fee_sats)
            confirmed
            (Snapshot.counted (pos 0) (pos day) as_it_is onchain (payout ∷ payout ∷ [])))
    × (taken.collected_at ≡ pos 7)
build_payout_snapshot_exact_example =
    build_payout_snapshot_exact (pos 0) (pos day) as_it_is payouts (pos 7) taken (omega arith)
      (omega arith) build_payout_snapshot_total_example.1 onchain confirmed

abbrev reward : DailyReward
reward = record {
  date = pos 100;
  total_reward = codes "0.5";
  mining_reward = codes "5e-1";
  bos_plus_reward = [];
  referral_bonus = [];
  referral_reward = [];
  calculation_date = pos 0;
  shares = [];
  share_prices = [];
}

abbrev pub rewards : CoinEnvelope RewardsResponse
rewards = (btc, record { daily_rewards = reward ∷ reward ∷ [] }) ∷ []

-- The text that both decimals spell.
abbrev half : Rat
half = record { num = pos 5; den = 10 }

abbrev earned : RewardSnapshot
earned = record {
  collected_at = pos 7;
  components = add_to (add_to zero_reward_components Rewards.total half) mining half;
}

rewards_earned : build_reward_snapshot (pos 0) (pos day) as_it_is btc (pos 7) rewards ≡ ok earned
unfolding build_reward_snapshot ◌*ℤ◌ trim_space trim ◌-ℤ◌ digits_value ◌+ℤ◌
rewards_earned = refl

build_reward_snapshot_exact_example :
    (response : RewardsResponse) × (lookup rewards (to_lower as_it_is btc) ≡ some response)
    × ((c : Component)
        → (rs : List Rat) × (values c
              (decimals_of (Rewards.Sums.counted (pos 0) (pos day) response.daily_rewards))
            ≡ ok rs)
          × (earned.components c ≡ foldl rat_add rat_zero rs))
build_reward_snapshot_exact_example =
    build_reward_snapshot_exact (pos 0) (pos day) as_it_is btc (pos 7) rewards earned rewards_earned

parse_base10_int-format_int_example :
    parse_base10_int (format_int (signed true 307)) ≡ ok (signed true 307)
parse_base10_int-format_int_example =
    parse_base10_int-format_int true 307 (omega arith) (omega arith)
