-- ===== src/Collector/History/Payouts/Identity.antt =====
-- The payouts against their keys: what a payout is counted under, without the texts.
use braiins_pool_exporter.Base.{
  ◌≡◌, ◌≢◌, refl, sym, ◌∙◌, ap, ◌↔◌, List, [], ◌∷◌, All, arith, Option, none, some, Bool-cases, inl,
  inr,
}
use braiins_pool_exporter.Base.Int.{ℤ}
use braiins_pool_exporter.Base.Int64.{IsInt64}
use braiins_pool_exporter.Text.{Text, codes, ◌==◌, trim_space, join}
use braiins_pool_exporter.Text.Numbers.{format_int}
use braiins_pool_exporter.Text.Split.{Lacks, trim_space-All, join-injective}
use braiins_pool_exporter.Braiins.Types.{Payout}
use braiins_pool_exporter.Collector.History.Numerals.{format_int-Lacks, format_int-injective}
use braiins_pool_exporter.Collector.History.Payouts.Labels.{Rail, onchain, lightning, rail_text}
use braiins_pool_exporter.Collector.History.Payouts.Keys.{
  first_candidate, key_of, payout_dedup_key, identified_key, described_key,
}

rail_text-injective : (r s : Rail) → rail_text r ≡ rail_text s → r ≡ s
rail_text-injective onchain onchain e = refl
rail_text-injective onchain lightning e = cc
rail_text-injective lightning onchain e = cc
rail_text-injective lightning lightning e = refl

rail_text-Lacks : (r : Rail) → Lacks 0 (rail_text r)
rail_text-Lacks onchain = ground arith
rail_text-Lacks lightning = ground arith

-- What a payout is counted under: its identifier, or what describes it.
pub data Identity : Type 0 where
  identified : Text → Identity
  described :
      (status : Text) (requested_at resolved_at amount fee : ℤ) (trigger account destination : Text)
      → Identity

abbrev identity_by : Payout → Option Text → Identity
identity_by p (some id) = identified id
identity_by p none =
    described p.status p.requested_at_ts p.resolved_at_ts p.amount_sats p.fee_sats p.trigger_type
      p.financial_account_name p.destination

abbrev candidates : Payout → List (Option Text)
candidates p = p.tx_id ∷ p.invoice ∷ p.preimage ∷ []

-- The first of the transaction, the invoice and the preimage that is not blank, if there is one.
abbrev pub identity : Payout → Identity
identity p = identity_by p (first_candidate (candidates p))

abbrev LacksIn : Option Text → Type 0
LacksIn none = Unit {0}
LacksIn (some s) = Lacks 0 s

-- No text of the payout has a NUL, and its numbers are int64.
pub record IsClean (p : Payout) : Type 0 where
  pub status : Lacks 0 p.status
  pub trigger : Lacks 0 p.trigger_type
  pub account : Lacks 0 p.financial_account_name
  pub destination : Lacks 0 p.destination
  pub ids : All LacksIn (candidates p)
  pub times : IsInt64 p.requested_at_ts × IsInt64 p.resolved_at_ts
  pub sums : IsInt64 p.amount_sats × IsInt64 p.fee_sats

first_candidate-LacksIn : (cs : List (Option Text)) → All LacksIn cs → LacksIn (first_candidate cs)
unfolding first_candidate
first_candidate-LacksIn [] h = tt
first_candidate-LacksIn (none ∷ cs) h = first_candidate-LacksIn cs h.1
first_candidate-LacksIn (some c ∷ cs) h = elim (Bool-cases (trim_space c == [])) [
  | inl blank ↦ rw blank (first_candidate-LacksIn cs h.1)
  | inr fine ↦ rw fine (trim_space-All (λ b. b ≢ 0) c h.0)
]

-- Every number is an int64 and no text has a NUL.
abbrev IsPlain : Identity → Type 0
IsPlain (identified id) = Lacks 0 id
IsPlain (described status requested resolved amount fee trigger account destination) =
    (Lacks 0 status × Lacks 0 trigger × Lacks 0 account × Lacks 0 destination)
    × (IsInt64 requested × IsInt64 resolved)
    × (IsInt64 amount × IsInt64 fee)

identity_by-IsPlain :
    (p : Payout) (id : Option Text) → IsClean p → LacksIn id → IsPlain (identity_by p id)
identity_by-IsPlain p (some id) h k = k
identity_by-IsPlain p none h k = ((h.status, h.trigger, h.account, h.destination), h.times, h.sums)

abbrev fields : Identity → List Text
fields (identified id) = codes "id" ∷ id ∷ []
fields (described status requested resolved amount fee trigger account destination) =
    status
    ∷ format_int requested
    ∷ format_int resolved
    ∷ format_int amount
    ∷ format_int fee
    ∷ trigger
    ∷ account
    ∷ destination
    ∷ []

fields-Lacks : (i : Identity) → IsPlain i → All (Lacks 0) (fields i)
fields-Lacks (identified id) h = (ground arith, (h, tt))
fields-Lacks (described status requested resolved amount fee trigger account destination) h =
    let (s, t, a, d) = h.0 in
    let ends : All (Lacks 0) (trigger ∷ account ∷ destination ∷ []) = (t, (a, (d, tt))) in
    let sums : All (Lacks 0)
        (format_int amount ∷ format_int fee ∷ trigger ∷ account ∷ destination ∷ []) =
      (format_int-Lacks amount, (format_int-Lacks fee, ends)) in
    (s, (format_int-Lacks requested, (format_int-Lacks resolved, sums)))

fields-injective : (i j : Identity) → IsPlain i → IsPlain j → fields i ≡ fields j → i ≡ j
fields-injective (identified id) (identified other) h k e =
    let same : id ≡ other = cc in ap identified same
fields-injective (identified id) (described s r t x f g a d) h k e = cc
fields-injective (described s r t x f g a d) (identified id) h k e = cc
fields-injective (described s r t x f g a d) (described s' r' t' x' f' g' a' d') h k e =
    let requested = format_int-injective r r' h.1.0 k.1.0 (cc) in
    let resolved = format_int-injective t t' h.1.1 k.1.1 (cc) in
    let amount = format_int-injective x x' h.2.0 k.2.0 (cc) in
    let fee = format_int-injective f f' h.2.1 k.2.1 (cc) in cc

key_of-join :
    (rail : Rail) (p : Payout) (id : Option Text)
    → key_of rail p id ≡ join (rail_text rail ∷ fields (identity_by p id)) (0 ∷ [])
unfolding key_of identified_key described_key join
key_of-join onchain p (some id) = refl
key_of-join lightning p (some id) = refl
key_of-join onchain p none = refl
key_of-join lightning p none = refl

-- Two payouts of which no text has a NUL have one key exactly if they are of one rail and have the same
-- identifier, whatever else they hold, or have none and agree in the status, the times, the amount, the
-- fee, the trigger, the account and the destination.
pub payout_dedup_key_iff :
    (r s : Rail) (p q : Payout)
    → IsClean p
    → IsClean q
    → (payout_dedup_key r p ≡ payout_dedup_key s q) ↔ ((r ≡ s) × (identity p ≡ identity q))
unfolding payout_dedup_key
payout_dedup_key_iff r s p q hp hq =
    let i = first_candidate (candidates p) in
    let j = first_candidate (candidates q) in
    let plain_p = identity_by-IsPlain p i hp (first_candidate-LacksIn (candidates p) hp.ids) in
    let plain_q = identity_by-IsPlain q j hq (first_candidate-LacksIn (candidates q) hq.ids) in
    (
      λ e.
          let parts : rail_text r ∷ fields (identity p) ≡ rail_text s ∷ fields (identity q) =
            join-injective 0 _ _ _ _ (rail_text-Lacks r, fields-Lacks (identity p) plain_p)
              (rail_text-Lacks s, fields-Lacks (identity q) plain_q)
              (sym (key_of-join r p i) ∙ e ∙ key_of-join s q j) in
          (
            rail_text-injective r s (cc),
            fields-injective (identity p) (identity q) plain_p plain_q (cc),
          ),
      λ (rails, same).
          key_of-join r p i
          ∙ ap (λ rail. join (rail_text rail ∷ fields (identity p)) (0 ∷ [])) rails
          ∙ ap (λ k. join (rail_text s ∷ fields k) (0 ∷ [])) same
          ∙ sym (key_of-join s q j),
    )
