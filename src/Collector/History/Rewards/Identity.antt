-- ===== src/Collector/History/Rewards/Identity.antt =====
-- The rewards against their keys.
use braiins_pool_exporter.Base.{◌≡◌, refl, ap, ◌↔◌, List, [], ◌∷◌, All}
use braiins_pool_exporter.Base.Int64.{IsInt64}
use braiins_pool_exporter.Text.{Text}
use braiins_pool_exporter.Text.Numbers.{format_int}
use braiins_pool_exporter.Text.Split.{Lacks, join-injective}
use braiins_pool_exporter.Braiins.Types.{DailyReward, SharePrice}
use braiins_pool_exporter.Collector.History.Numerals.{format_int-Lacks, format_int-injective}
use braiins_pool_exporter.Collector.History.Rewards.{price_parts, reward_dedup_key}

-- The numbers are int64, and the decimals have no NUL.
abbrev pub IsCleanPrice : SharePrice → Type 0
IsCleanPrice p = IsInt64 p.from_ts × IsInt64 p.to_ts × Lacks 0 p.share_price

pub record IsClean (r : DailyReward) : Type 0 where
  pub dates : IsInt64 r.date × IsInt64 r.calculation_date
  pub total : Lacks 0 r.total_reward
  pub mining : Lacks 0 r.mining_reward
  pub bos_plus : Lacks 0 r.bos_plus_reward
  pub bonus : Lacks 0 r.referral_bonus
  pub referral : Lacks 0 r.referral_reward
  pub shares : Lacks 0 r.shares
  pub prices : All IsCleanPrice r.share_prices

price_parts-Lacks : (ps : List SharePrice) → All IsCleanPrice ps → All (Lacks 0) (price_parts ps)
unfolding price_parts
price_parts-Lacks [] h = tt
price_parts-Lacks (p ∷ ps) h =
    (format_int-Lacks p.from_ts, (format_int-Lacks p.to_ts, (h.0.2, price_parts-Lacks ps h.1)))

price_parts-injective :
    (ps qs : List SharePrice)
    → All IsCleanPrice ps
    → All IsCleanPrice qs
    → price_parts ps ≡ price_parts qs
    → ps ≡ qs
unfolding price_parts
price_parts-injective [] [] h k e = refl
price_parts-injective [] (q ∷ qs) h k e = cc
price_parts-injective (p ∷ ps) [] h k e = cc
price_parts-injective (p ∷ ps) (q ∷ qs) h k e =
    let from = format_int-injective p.from_ts q.from_ts h.0.0 k.0.0 (cc) in
    let till = format_int-injective p.to_ts q.to_ts h.0.1 k.0.1 (cc) in
    let price : p.share_price ≡ q.share_price = cc in
    let rest = price_parts-injective ps qs h.1 k.1 (cc) in let same : p ≡ q = cc in cc

abbrev decimals : DailyReward → List Text
decimals r =
    r.total_reward
    ∷ r.mining_reward
    ∷ r.bos_plus_reward
    ∷ r.referral_bonus
    ∷ r.referral_reward
    ∷ r.shares
    ∷ price_parts r.share_prices

-- What stands behind the date.
abbrev behind : DailyReward → List Text
behind r = format_int r.calculation_date ∷ decimals r

behind-Lacks : (r : DailyReward) → IsClean r → All (Lacks 0) (behind r)
behind-Lacks r h =
    let prices = price_parts-Lacks r.share_prices h.prices in
    let bonuses : All (Lacks 0) (r.referral_bonus ∷ r.referral_reward ∷ r.shares ∷ _) =
      (h.bonus, (h.referral, (h.shares, prices))) in
    (format_int-Lacks r.calculation_date, (h.total, (h.mining, (h.bos_plus, bonuses))))

-- Two rewards whose numbers are int64 and whose decimals have no NUL have one key exactly if they agree
-- in every field, the share prices included.
pub reward_dedup_key_iff :
    (r s : DailyReward)
    → IsClean r
    → IsClean s
    → (reward_dedup_key r ≡ reward_dedup_key s) ↔ (r ≡ s)
unfolding reward_dedup_key
reward_dedup_key_iff r s hr hs = (
  λ e.
      let parts : format_int r.date ∷ behind r ≡ format_int s.date ∷ behind s =
        join-injective 0 _ _ _ _ (format_int-Lacks r.date, behind-Lacks r hr)
          (format_int-Lacks s.date, behind-Lacks s hs) e in
      let date = format_int-injective r.date s.date hr.dates.0 hs.dates.0 (cc) in
      let calculated =
        format_int-injective r.calculation_date s.calculation_date hr.dates.1 hs.dates.1 (cc) in
      let prices = price_parts-injective r.share_prices s.share_prices hr.prices hs.prices (cc) in
      let total : r.total_reward ≡ s.total_reward = cc in
      let mining : r.mining_reward ≡ s.mining_reward = cc in
      let bos_plus : r.bos_plus_reward ≡ s.bos_plus_reward = cc in
      let bonus : r.referral_bonus ≡ s.referral_bonus = cc in
      let referral : r.referral_reward ≡ s.referral_reward = cc in
      let shares : r.shares ≡ s.shares = cc in cc,
  λ e. ap reward_dedup_key e,
)
