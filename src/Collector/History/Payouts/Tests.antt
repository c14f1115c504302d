-- ===== src/Collector/History/Payouts/Tests.antt =====
-- Keys of payouts at concrete inputs.
use braiins_pool_exporter.Base.{◌≡◌, ◌↔◌, refl, ◌∷◌, ◌++◌, none, some, arith}
use braiins_pool_exporter.Base.Int.{pos}
use braiins_pool_exporter.Text.{codes, trim_space, join}
use braiins_pool_exporter.Text.Numbers.{format_int}
use braiins_pool_exporter.Braiins.Types.{Payout}
use braiins_pool_exporter.Collector.History.Payouts.Labels.{onchain, lightning}
use braiins_pool_exporter.Collector.History.Payouts.Keys.{payout_dedup_key}
use braiins_pool_exporter.Collector.History.Payouts.Identity.{
  IsClean, identity, payout_dedup_key_iff,
}

-- A payout with a blank transaction and no other identifier.
abbrev nameless : Payout
nameless = record {
  financial_account_name = codes "main";
  requested_at_ts = pos 100;
  resolved_at_ts = pos 0;
  status = codes "queued";
  amount_sats = pos 5000;
  fee_sats = pos 12;
  destination = codes "bc1";
  tx_id = some (codes " ");
  invoice = none;
  preimage = none;
  trigger_type = codes "threshold";
}

abbrev named : Payout
named = record nameless { tx_id = some (codes "ab") }

nameless-IsClean : IsClean nameless
nameless-IsClean = record {
  status = ground arith;
  trigger = ground arith;
  account = ground arith;
  destination = ground arith;
  ids = ground arith;
  times = ground arith;
  sums = ground arith;
}

named-IsClean : IsClean named
named-IsClean = record {
  status = nameless-IsClean.status;
  trigger = nameless-IsClean.trigger;
  account = nameless-IsClean.account;
  destination = nameless-IsClean.destination;
  ids = ground arith;
  times = nameless-IsClean.times;
  sums = nameless-IsClean.sums;
}

payout_dedup_key_iff_example :
    (payout_dedup_key onchain nameless ≡ payout_dedup_key lightning named)
    ↔ ((onchain ≡ lightning) × (identity nameless ≡ identity named))
payout_dedup_key_iff_example =
    payout_dedup_key_iff onchain lightning nameless named nameless-IsClean named-IsClean

-- With one transaction the amounts, the fees and the statuses may differ.
one_identifier :
    payout_dedup_key onchain named
    ≡ payout_dedup_key onchain
        (record named { status = codes "confirmed"; amount_sats = pos 7000; fee_sats = pos 9 })
unfolding payout_dedup_key trim_space
one_identifier = refl

-- Two payouts that a NUL in a text gives one key.
abbrev left_nul : Payout
left_nul = record nameless {
  trigger_type = codes "a" ++ (0 ∷ codes "b");
  financial_account_name = codes "c";
}

abbrev right_nul : Payout
right_nul = record nameless {
  trigger_type = codes "a";
  financial_account_name = codes "b" ++ (0 ∷ codes "c");
}

one_key : payout_dedup_key onchain left_nul ≡ payout_dedup_key onchain right_nul
unfolding payout_dedup_key join format_int trim_space
one_key = refl
