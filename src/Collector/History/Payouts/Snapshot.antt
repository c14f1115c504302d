-- ===== src/Collector/History/Payouts/Snapshot.antt =====
-- The snapshot of the payouts against the sums of the payouts that count.
use braiins_pool_exporter.Base.{
  ℕ, ◌+◌, length, ltb, Option, none, some, false, ◌≡◌, refl, sym, ◌∙◌, List, [], ◌∷◌, arith,
  if◌then◌else◌, keep, All, eqb,
}
use braiins_pool_exporter.Base.Int.{ℤ, pos, ◌+ℤ◌, int_laws}
use braiins_pool_exporter.Base.Result.{ok, >>=-eq-ok, fail_if}
use braiins_pool_exporter.Text.{Text, ◌==◌, contains}
use braiins_pool_exporter.Braiins.Types.{Payout, PayoutsResponse}
use braiins_pool_exporter.Base.Time.{Time}
use braiins_pool_exporter.Collector.Distinct.{distinct, fresh-none, fresh-nil, All-fresh, All-keep}
use braiins_pool_exporter.Collector.History.Payouts.{
  PayoutSnapshot, Progress, max_payout_records, add_payout, build_payout_snapshot, payout_loop,
  zero_payout_totals,
}
use braiins_pool_exporter.Collector.History.Payouts.Keys.{payout_dedup_key, key_of}
use braiins_pool_exporter.Collector.History.Payouts.Labels.{
  Rail, onchain, lightning, PayoutStatus, Totals, same_rail,
}
use braiins_pool_exporter.Collector.History.Payouts.Sums.{
  IsDecoded, in_window, total, add_all, add_all-Adds, payout_loop-add_all, Adds, IsInRange,
}

-- The first letter of a key tells the rail.
abbrev letter : Rail → ℕ
letter onchain = b'o'
letter lightning = b'l'

abbrev Begins : ℕ → Text → Type 0
Begins b [] = ⊥
Begins b (c ∷ s) = c ≡ b

key_of-Begins :
    (rail : Rail) (p : Payout) (id : Option Text) → Begins (letter rail) (key_of rail p id)
unfolding key_of
key_of-Begins onchain p none = refl
key_of-Begins onchain p (some id) = refl
key_of-Begins lightning p none = refl
key_of-Begins lightning p (some id) = refl

payout_dedup_key-Begins :
    (rail : Rail) (p : Payout) → Begins (letter rail) (payout_dedup_key rail p)
unfolding payout_dedup_key
payout_dedup_key-Begins rail p = key_of-Begins rail p _

==_other : (b c : ℕ) (s t : Text) → eqb c b ≡ false → Begins c s → Begins b t → (s == t) ≡ false
unfolding ◌==◌
==_other b c [] t h hs ht = absurd hs
==_other b c (x ∷ s) [] h hs ht = absurd ht
==_other b c (x ∷ s) (y ∷ t) h hs ht = ground arith

contains-other :
    (b c : ℕ) (seen : List Text) (key : Text)
    → eqb c b ≡ false
    → All (Begins b) seen
    → Begins c key
    → contains seen key ≡ false
unfolding contains
contains-other b c [] key h hs hk = refl
contains-other b c (k ∷ ks) key h hs hk =
    rw (==_other b c key k h hk hs.0, contains-other b c ks key h hs.1 hk)

-- Each rail's total is moved by its own loop alone.
sum_of_rails :
    (x y : PayoutStatus → ℤ) (t u : Totals)
    → ((r : Rail) (s : PayoutStatus)
        → t r s ≡ pos 0 +ℤ (if same_rail r onchain then x s else pos 0))
    → ((r : Rail) (s : PayoutStatus)
        → u r s ≡ t r s +ℤ (if same_rail r lightning then y s else pos 0))
    → (r : Rail) (s : PayoutStatus) → u r s ≡ (elim r [ onchain ↦ x s | lightning ↦ y s ])
sum_of_rails x y t u ht hu onchain s = rw (hu onchain s, ht onchain s) (omega int_laws)
sum_of_rails x y t u ht hu lightning s = rw (hu lightning s, ht lightning s) (omega int_laws)

module _ (start end : Time) (fold : Text → Text) where
  add_all-Begins :
      (rail : Rail) (ps : List Payout) (seen seen' : List Text) (a f a' f' : Totals)
      → All (Begins (letter rail)) seen
      → add_all start end fold rail ps (seen, a, f) ≡ ok (seen', a', f')
      → All (Begins (letter rail)) seen'
  unfolding add_all
  add_all-Begins rail [] seen seen' a f a' f' h e = let same : seen ≡ seen' = cc in rw (← same) h
  add_all-Begins rail (p ∷ ps) seen seen' a f a' f' h e =
      let ((a1, f1), e1, e2) = >>=-eq-ok (add_payout start end fold rail p a f) _ e in
      add_all-Begins rail ps (payout_dedup_key rail p ∷ seen) seen' a1 f1 a' f'
        (payout_dedup_key-Begins rail p, h) e2

  -- The payouts of a rail that count: those in the window, each key once.
  abbrev pub counted : Rail → List Payout → List Payout
  counted rail ps = distinct (payout_dedup_key rail) (keep (in_window start end fold) ps)

  abbrev pub payouts_of : Rail → PayoutsResponse → List Payout
  payouts_of onchain response = response.onchain
  payouts_of lightning response = response.lightning

  -- The stages of a build that succeeds.
  build_payout_snapshot-inv :
      (response : PayoutsResponse) (now : Time) (snapshot : PayoutSnapshot)
      → build_payout_snapshot start end fold response now ≡ ok snapshot
      → (p q : Progress) × (payout_loop start end fold onchain response.onchain
            ([], zero_payout_totals, zero_payout_totals)
          ≡ ok p)
        × (payout_loop start end fold lightning response.lightning p ≡ ok q)
        × (snapshot ≡ record { collected_at = now; amounts = q.1; fees = q.2 })
  unfolding build_payout_snapshot
  build_payout_snapshot-inv response now snapshot e =
      let (_, few, e1) =
        >>=-eq-ok
          (fail_if (ltb max_payout_records (length response.onchain + length response.lightning))
            "Braiins payouts response exceeds record limit")
          _ e in
      let (p, ep, e2) =
        >>=-eq-ok
          (payout_loop start end fold onchain response.onchain
            ([], zero_payout_totals, zero_payout_totals))
          _ e1 in
      let (q, eq, e3) =
        >>=-eq-ok (payout_loop start end fold lightning response.lightning p) _ e2 in
      (p, q, ep, eq, cc)

  -- The loop of the first rail, from nothing.
  first_rail :
      (ps : List Payout) (p : Progress)
      → All IsDecoded ps
      → payout_loop start end fold onchain ps ([], zero_payout_totals, zero_payout_totals) ≡ ok p
      → Adds start end fold onchain
          (counted onchain ps)
          zero_payout_totals
          zero_payout_totals
          p.1
          p.2
        × All (Begins (letter onchain)) p.0
  first_rail ps p hp e =
      let qs = keep (in_window start end fold) ps in
      let e' = sym (payout_loop-add_all start end fold onchain ps [] _ _) ∙ e in
      let hq = All-keep IsDecoded (in_window start end fold) ps hp in
      (
        rw (← fresh-nil (payout_dedup_key onchain) qs) (
            add_all-Adds start end fold onchain _ [] p.0 _ _ p.1 p.2
              (All-fresh (payout_dedup_key onchain) IsDecoded [] qs hq) (λ r s. omega arith)
              (λ r s. omega arith) e'),
        add_all-Begins onchain _ [] p.0 _ _ p.1 p.2 tt e',
      )

  -- The loop of the second rail, behind the keys of the first, which it never meets.
  second_rail :
      (ps : List Payout) (p q : Progress)
      → All IsDecoded ps
      → IsInRange p.1
      → IsInRange p.2
      → All (Begins (letter onchain)) p.0
      → payout_loop start end fold lightning ps p ≡ ok q
      → Adds start end fold lightning (counted lightning ps) p.1 p.2 q.1 q.2
  second_rail ps p q hp ha hf seen e =
      let qs = keep (in_window start end fold) ps in
      let e' = sym (payout_loop-add_all start end fold lightning ps p.0 p.1 p.2) ∙ e in
      let new = λ (x : Payout).
        contains-other (letter onchain) (letter lightning) p.0 (payout_dedup_key lightning x) refl
          seen (payout_dedup_key-Begins lightning x) in
      rw (← fresh-none (payout_dedup_key lightning) p.0 qs new) (
        add_all-Adds start end fold lightning _ p.0 q.0 p.1 p.2 q.1 q.2
          (All-fresh (payout_dedup_key lightning) IsDecoded p.0 qs
            (All-keep IsDecoded (in_window start end fold) ps hp))
          ha hf e')

  both :
      (response : PayoutsResponse) (p q : Progress)
      → Adds start end fold onchain
          (counted onchain response.onchain)
          zero_payout_totals
          zero_payout_totals
          p.1
          p.2
      → Adds start end fold lightning (counted lightning response.lightning) p.1 p.2 q.1 q.2
      → (r : Rail) (s : PayoutStatus)
      → (q.1 r s ≡ total start end fold (λ p. p.amount_sats) s (counted r (payouts_of r response)))
        × (q.2 r s ≡ total start end fold (λ p. p.fee_sats) s (counted r (payouts_of r response)))
  both response p q one two onchain s = (
    sum_of_rails _ _ p.1 q.1 one.amounts two.amounts onchain s,
    sum_of_rails _ _ p.2 q.2 one.fees two.fees onchain s,
  )
  both response p q one two lightning s = (
    sum_of_rails _ _ p.1 q.1 one.amounts two.amounts lightning s,
    sum_of_rails _ _ p.2 q.2 one.fees two.fees lightning s,
  )

  -- In a snapshot that is built of payouts whose amounts and fees are int64, each total is the exact sum
  -- over the payouts of its rail and status that lie in the window, where of those with one key the
  -- first counts; so for amounts and fees.
  pub build_payout_snapshot_exact :
      (response : PayoutsResponse) (now : Time) (snapshot : PayoutSnapshot)
      → All IsDecoded response.onchain
      → All IsDecoded response.lightning
      → build_payout_snapshot start end fold response now ≡ ok snapshot
      → (r : Rail) (s : PayoutStatus)
      → (snapshot.amounts r s
          ≡ total start end fold (λ p. p.amount_sats) s (counted r (payouts_of r response)))
        × (snapshot.fees r s
            ≡ total start end fold (λ p. p.fee_sats) s (counted r (payouts_of r response)))
        × (snapshot.collected_at ≡ now)
  build_payout_snapshot_exact response now snapshot ho hl e r s =
      let (p, q, ep, eq, es) = build_payout_snapshot-inv response now snapshot e in
      let (one, seen) = first_rail response.onchain p ho ep in
      let two = second_rail response.lightning p q hl one.amounts_fit one.fees_fit seen eq in
      let (amounts, fees) = both response p q one two r s in rw es (amounts, fees, refl)
