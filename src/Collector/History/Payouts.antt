-- ===== src/Collector/History/Payouts.antt =====
-- `buildPayoutSnapshot` and what it calls. The keys of the totals are the rails and the statuses, which
-- are two closed sets of labels, so a total is a function of both.
pub mod Labels
pub mod Keys
pub mod Identity
pub mod Tests
pub mod Sums
pub mod Snapshot
pub mod Fits
use braiins_pool_exporter.Base.{
  ℕ, ◌+◌, String, Bool, true, false, not, ◌&&◌, List, [], ◌∷◌, ◌++◌, Option, none, some, ltb,
  if◌then◌else◌, length,
}
use braiins_pool_exporter.Base.Int.{ℤ, pos, eqb_ℤ}
use braiins_pool_exporter.Base.Result.{Result, ok, err, ◌>>=◌, ◌>>◌, fail_if}
use braiins_pool_exporter.Text.{Text, contains}
use braiins_pool_exporter.Braiins.Types.{Payout, PayoutsResponse}
use braiins_pool_exporter.Base.Time.{Time}
use braiins_pool_exporter.Collector.History.SafeAdd.{safe_add}
use braiins_pool_exporter.Collector.History.Window.{timestamp_in_window}
use braiins_pool_exporter.Collector.History.Payouts.Labels.{
  Rail, onchain, lightning, PayoutStatus, normalize_payout_status, Totals, update,
}
use braiins_pool_exporter.Collector.History.Payouts.Keys.{payout_dedup_key}

pub record PayoutSnapshot : Type 0 where
  pub collected_at : Time
  pub amounts : Totals
  pub fees : Totals

abbrev pub max_payout_records : ℕ
max_payout_records = 1000

abbrev pub zero_payout_totals : Totals
zero_payout_totals rail status = pos 0

unfoldable pub payout_timestamp : Payout → ℤ
payout_timestamp p =
    if not (eqb_ℤ p.requested_at_ts (pos 0)) then p.requested_at_ts else p.resolved_at_ts

-- The keys seen so far, and the totals of both kinds.
abbrev pub Progress : Type 0
Progress = List Text × Totals × Totals

abbrev or_fail : {A : Type 0} → Option A → String → Result String A
or_fail none message = err message
or_fail (some a) message = ok a

module _ (start end : Time) (fold : Text → Text) where
  -- The additions of one payout, which the window and the keys have let through.
  unfoldable pub add_payout : Rail → Payout → Totals → Totals → Result String (Totals × Totals)
  unfolding normalize_payout_status safe_add
  add_payout rail payout amounts fees = do
    let status = normalize_payout_status fold payout.status
    amount ←
        or_fail (safe_add (amounts rail status) payout.amount_sats)
          "Braiins payouts response amount exceeds supported range"
    fee ←
        or_fail (safe_add (fees rail status) payout.fee_sats)
          "Braiins payouts response fee exceeds supported range"
    ok (update amounts rail status amount, update fees rail status fee)

  -- The loop over the payouts of one rail.
  unfoldable pub payout_loop : Rail → List Payout → Progress → Result String Progress
  unfolding add_payout timestamp_in_window payout_timestamp payout_dedup_key contains
  payout_loop rail [] progress = ok progress
  payout_loop rail (payout ∷ payouts) (seen, amounts, fees) =
      let skip = payout_loop rail payouts (seen, amounts, fees) in
      let key = payout_dedup_key rail payout in
      let take = add_payout rail payout amounts fees >>= λ (amounts', fees').
      payout_loop rail payouts (key ∷ seen, amounts', fees') in
      if not (timestamp_in_window (payout_timestamp payout) start end)
      then skip
      else if contains seen key
      then skip
      else take

  unfoldable pub build_payout_snapshot : PayoutsResponse → Time → Result String PayoutSnapshot
  unfolding payout_loop
  build_payout_snapshot response collected_at = do
    fail_if (ltb max_payout_records (length response.onchain + length response.lightning))
        "Braiins payouts response exceeds record limit"
    progress ← payout_loop onchain response.onchain ([], zero_payout_totals, zero_payout_totals)
    (_, amounts, fees) ← payout_loop lightning response.lightning progress
    ok (record { collected_at = collected_at; amounts = amounts; fees = fees })
