-- ===== src/Collector/History/Payouts/Labels.antt =====
-- The labels of the payout metrics, and totals by label.
use braiins_pool_exporter.Base.{◌≡◌, arith, Bool, true, false, ◌&&◌, if◌then◌else◌, List, [], ◌∷◌}
use braiins_pool_exporter.Base.Int.{ℤ}
use braiins_pool_exporter.Text.{Text, codes, ◌==◌, trim_space, to_lower}

pub data Rail : Type 0 where
  onchain lightning : Rail

pub data PayoutStatus : Type 0 where
  queued confirmed failed unknown : PayoutStatus

abbrev pub rail_text : Rail → Text
rail_text onchain = codes "onchain"
rail_text lightning = codes "lightning"

abbrev pub status_text : PayoutStatus → Text
status_text queued = codes "queued"
status_text confirmed = codes "confirmed"
status_text failed = codes "failed"
status_text unknown = codes "unknown"

abbrev pub payout_rails : List Rail
payout_rails = onchain ∷ lightning ∷ []

abbrev pub payout_statuses : List PayoutStatus
payout_statuses = queued ∷ confirmed ∷ failed ∷ unknown ∷ []

unfoldable pub normalize_payout_status : (Text → Text) → Text → PayoutStatus
unfolding trim_space to_lower ◌==◌
normalize_payout_status fold status =
    let text = to_lower fold (trim_space status) in
    if text == codes "queued"
    then queued
    else if text == codes "confirmed"
    then confirmed
    else if text == codes "failed"
    then failed
    else unknown

abbrev pub same_rail : Rail → Rail → Bool
same_rail onchain onchain = true
same_rail lightning lightning = true
same_rail _ _ = false

abbrev pub same_status : PayoutStatus → PayoutStatus → Bool
same_status queued queued = true
same_status confirmed confirmed = true
same_status failed failed = true
same_status unknown unknown = true
same_status _ _ = false

abbrev pub Totals : Type 0
Totals = Rail → PayoutStatus → ℤ

-- `totals[rail][status] = value`
unfoldable pub update : Totals → Rail → PayoutStatus → ℤ → Totals
update totals rail status value r s =
    if same_rail r rail && same_status s status then value else totals r s

pub same_rail→eq : (r r' : Rail) → same_rail r r' ≡ true → r ≡ r'
same_rail→eq r r' h = ground arith

pub same_status→eq : (s s' : PayoutStatus) → same_status s s' ≡ true → s ≡ s'
same_status→eq s s' h = ground arith
