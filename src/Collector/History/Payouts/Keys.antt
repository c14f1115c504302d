-- ===== src/Collector/History/Payouts/Keys.antt =====
-- The key by which a payout is counted once.
use braiins_pool_exporter.Base.{not, [], ◌∷◌, ◌++◌, Option, none, some, List, if◌then◌else◌}
use braiins_pool_exporter.Text.{Text, codes, ◌==◌, trim_space, join}
use braiins_pool_exporter.Text.Numbers.{format_int}
use braiins_pool_exporter.Braiins.Types.{Payout}
use braiins_pool_exporter.Collector.History.Payouts.Labels.{Rail, rail_text}

-- The first identifier that is set and not blank.
unfoldable pub first_candidate : List (Option Text) → Option Text
unfolding trim_space ◌==◌
first_candidate [] = none
first_candidate (none ∷ cs) = first_candidate cs
first_candidate (some candidate ∷ cs) =
    if not (trim_space candidate == []) then some (trim_space candidate) else first_candidate cs

abbrev nul : Text
nul = 0 ∷ []

unfoldable pub identified_key : Rail → Text → Text
identified_key rail id = rail_text rail ++ (nul ++ (codes "id" ++ (nul ++ id)))

unfoldable pub described_key : Rail → Payout → Text
unfolding join format_int
described_key rail payout =
    join
      (rail_text rail
        ∷ payout.status
        ∷ format_int payout.requested_at_ts
        ∷ format_int payout.resolved_at_ts
        ∷ format_int payout.amount_sats
        ∷ format_int payout.fee_sats
        ∷ payout.trigger_type
        ∷ payout.financial_account_name
        ∷ payout.destination
        ∷ [])
      nul

unfoldable pub key_of : Rail → Payout → Option Text → Text
unfolding identified_key described_key
key_of rail payout (some id) = identified_key rail id
key_of rail payout none = described_key rail payout

unfoldable pub payout_dedup_key : Rail → Payout → Text
unfolding first_candidate key_of
payout_dedup_key rail payout =
    key_of rail payout (first_candidate (payout.tx_id ∷ payout.invoice ∷ payout.preimage ∷ []))
