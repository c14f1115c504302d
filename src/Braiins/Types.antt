-- ===== src/Braiins/Types.antt =====
-- internal/braiins/types.go: the responses. A pointer field is an `Option`, an int64 is a `ℤ`, and a
-- `Decimal` is the text of the JSON token.
pub mod Decode
use braiins_pool_exporter.Base.{List, Option}
use braiins_pool_exporter.Base.Int.{ℤ}
use braiins_pool_exporter.Text.{Text, Map}

abbrev pub Decimal : Type 0
Decimal = Text

abbrev pub CoinEnvelope : Type 0 → Type 0
CoinEnvelope T = Map T

pub record PoolBlock : Type 0 where
  pub date_found : ℤ
  pub mining_duration : ℤ
  pub total_shares : Decimal
  pub state : Text
  pub confirmations_left : ℤ
  pub value : Decimal
  pub user_reward : Decimal
  pub pool_scoring_hash_rate : Decimal

pub record PoolStats : Type 0 where
  pub hash_rate_unit : Text
  pub pool_active_workers : Option ℤ
  pub pool_hash_rate_5m : Decimal
  pub pool_hash_rate_60m : Decimal
  pub pool_hash_rate_24h : Decimal
  pub update_ts : ℤ
  pub blocks : Map PoolBlock
  pub fpps_rate : Option Decimal

pub record Profile : Type 0 where
  pub all_time_reward : Decimal
  pub hash_rate_unit : Text
  pub hash_rate_5m : Decimal
  pub hash_rate_60m : Decimal
  pub hash_rate_24h : Decimal
  pub hash_rate_yesterday : Decimal
  pub low_workers : ℤ
  pub off_workers : ℤ
  pub ok_workers : ℤ
  pub disabled_workers : ℤ
  pub current_balance : Decimal
  pub today_reward : Decimal
  pub estimated_reward : Decimal
  pub shares_5m : Decimal
  pub shares_60m : Decimal
  pub shares_24h : Decimal
  pub shares_yesterday : Decimal

pub record ProfileResponse : Type 0 where
  pub username : Text
  pub coins : Map Profile

pub record SharePrice : Type 0 where
  pub from_ts : ℤ
  pub to_ts : ℤ
  pub share_price : Decimal

pub record DailyReward : Type 0 where
  pub date : ℤ
  pub total_reward : Decimal
  pub mining_reward : Decimal
  pub bos_plus_reward : Decimal
  pub referral_bonus : Decimal
  pub referral_reward : Decimal
  pub shares : Decimal
  pub share_prices : List SharePrice
  pub calculation_date : ℤ

pub record RewardsResponse : Type 0 where
  pub daily_rewards : List DailyReward

pub record Worker : Type 0 where
  pub state : Text
  pub last_share : Option ℤ
  pub hash_rate_unit : Text
  pub hash_rate_scoring : Option Decimal
  pub hash_rate_5m : Decimal
  pub hash_rate_60m : Decimal
  pub hash_rate_24h : Decimal
  pub shares_5m : Decimal
  pub shares_60m : Decimal
  pub shares_24h : Decimal

pub record WorkersResponse : Type 0 where
  pub workers : Map Worker

pub record Payout : Type 0 where
  pub financial_account_name : Text
  pub requested_at_ts : ℤ
  pub resolved_at_ts : ℤ
  pub status : Text
  pub amount_sats : ℤ
  pub fee_sats : ℤ
  pub destination : Text
  pub tx_id : Option Text
  pub invoice : Option Text
  pub preimage : Option Text
  pub trigger_type : Text

pub record PayoutsResponse : Type 0 where
  pub onchain : List Payout
  pub lightning : List Payout

-- No collector reads the next three.
pub record DailyHashrate : Type 0 where
  pub date : ℤ
  pub hash_rate_unit : Text
  pub hash_rate_24h : Decimal
  pub total_shares : Decimal

pub record BlockReward : Type 0 where
  pub block_found_at : ℤ
  pub pool_scoring_hash_rate : Decimal
  pub user_scoring_hash_rate : Decimal
  pub block_value : Decimal
  pub user_reward : Decimal
  pub block_height : ℤ
  pub mining_reward : Decimal
  pub braiins_os_plus_mining_bonus : Decimal
  pub referral_reward : Decimal
  pub referral_bonus : Decimal
  pub confirmations_left : ℤ

pub record BlockRewardsResponse : Type 0 where
  pub block_rewards : List BlockReward
  pub hash_rate_unit : Text
