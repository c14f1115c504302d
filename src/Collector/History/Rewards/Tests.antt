-- ===== src/Collector/History/Rewards/Tests.antt =====
-- Keys of rewards at concrete inputs.
use braiins_pool_exporter.Base.{◌≡◌, ◌↔◌, [], ◌∷◌, arith}
use braiins_pool_exporter.Base.Int.{pos}
use braiins_pool_exporter.Text.{codes}
use braiins_pool_exporter.Braiins.Types.{DailyReward, SharePrice}
use braiins_pool_exporter.Collector.History.Rewards.{reward_dedup_key}
use braiins_pool_exporter.Collector.History.Rewards.Identity.{IsClean, reward_dedup_key_iff}

abbrev first_price : SharePrice
first_price = record { from_ts = pos 1; to_ts = pos 2; share_price = codes "1e-9" }

abbrev reward : DailyReward
reward = record {
  date = pos 100;
  total_reward = codes "0.5";
  mining_reward = codes "5e-1";
  bos_plus_reward = [];
  referral_bonus = [];
  referral_reward = [];
  calculation_date = pos 0;
  shares = codes "7";
  share_prices = first_price ∷ [];
}

-- The same reward without its price.
abbrev priceless : DailyReward
priceless = record reward { share_prices = [] }

reward-IsClean : IsClean reward
reward-IsClean = record {
  dates = ground arith;
  total = ground arith;
  mining = ground arith;
  bos_plus = tt;
  bonus = tt;
  referral = tt;
  shares = ground arith;
  prices = ground arith;
}

priceless-IsClean : IsClean priceless
priceless-IsClean = record {
  dates = ground arith;
  total = ground arith;
  mining = ground arith;
  bos_plus = tt;
  bonus = tt;
  referral = tt;
  shares = ground arith;
  prices = tt;
}

reward_dedup_key_iff_example :
    (reward_dedup_key reward ≡ reward_dedup_key priceless) ↔ (reward ≡ priceless)
reward_dedup_key_iff_example =
    reward_dedup_key_iff reward priceless reward-IsClean priceless-IsClean
