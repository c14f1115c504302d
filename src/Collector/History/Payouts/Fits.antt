-- ===== src/Collector/History/Payouts/Fits.antt =====
-- Payouts of real amounts never overflow the totals.
use braiins_pool_exporter.Base.{
  ℕ, suc, ◌+◌, ◌*◌, ◌≤◌, ◌<◌, ◌≡◌, refl, ◌∙◌, String, false, List, [], ◌∷◌, some, arith, keep, All,
  length, ltb,
}
use braiins_pool_exporter.Base.Int.{ℤ, pos, ◌+ℤ◌, ◌≤ℤ◌, +ℤ_parts}
use braiins_pool_exporter.Base.Result.{Result, ok}
use braiins_pool_exporter.Text.{Text}
use braiins_pool_exporter.Braiins.Types.{Payout, PayoutsResponse}
use braiins_pool_exporter.Base.Time.{Time}
use braiins_pool_exporter.Collector.Distinct.{fresh, length-fresh, length-keep, All-fresh, All-keep}
use braiins_pool_exporter.Collector.History.SafeAdd.{safe_add, safe_add_exact}
use braiins_pool_exporter.Collector.History.Payouts.{
  PayoutSnapshot, Progress, max_payout_records, add_payout, payout_loop, build_payout_snapshot,
  zero_payout_totals,
}
use braiins_pool_exporter.Collector.History.Payouts.Keys.{payout_dedup_key}
use braiins_pool_exporter.Collector.History.Payouts.Labels.{
  Rail, onchain, lightning, PayoutStatus, Totals, update, normalize_payout_status,
}
use braiins_pool_exporter.Collector.History.Payouts.Sums.{add_all, payout_loop-add_all, in_window}

-- All the satoshis that there can be: 21 million bitcoins.
abbrev pub max_sats : ℕ
max_sats = 2_100_000_000_000_000

abbrev pub IsReal : Payout → Type 0
IsReal p =
    ((pos 0 ≤ℤ p.amount_sats) × (p.amount_sats ≤ℤ pos max_sats))
    × ((pos 0 ≤ℤ p.fee_sats) × (p.fee_sats ≤ℤ pos max_sats))

-- No total is more than `k` payouts can make it.
abbrev IsBelow : ℕ → Totals → Type 0
IsBelow k t = (r : Rail) (s : PayoutStatus) → (pos 0 ≤ℤ t r s) × (t r s ≤ℤ pos (k * max_sats))

safe_add_fits :
    (k : ℕ) (l v : ℤ)
    → k < 1000
    → (pos 0 ≤ℤ l) × (l ≤ℤ pos (k * max_sats))
    → (pos 0 ≤ℤ v) × (v ≤ℤ pos max_sats)
    → safe_add l v ≡ some (l +ℤ v)
safe_add_fits k l v hk hl hv =
    safe_add_exact l v (omega arith) (omega arith) ∙ ground (arith, +ℤ_parts l v)

update-IsBelow :
    (k : ℕ) (t : Totals) (rail : Rail) (status : PayoutStatus) (v : ℤ)
    → IsBelow k t
    → (pos 0 ≤ℤ v) × (v ≤ℤ pos max_sats)
    → IsBelow (suc k) (update t rail status (t rail status +ℤ v))
unfolding update
update-IsBelow k t rail status v ht hv r s =
    ground (arith, ht r s, ht rail status, +ℤ_parts (t rail status) v)

module _ (start end : Time) (fold : Text → Text) where
  Returns : ℕ → Result String Progress → Type 0
  Returns k result = (p : Progress) × (result ≡ ok p) × IsBelow k p.1 × IsBelow k p.2

  add_all_fits :
      (rail : Rail) (ps : List Payout) (k : ℕ) (seen : List Text) (a f : Totals)
      → k + length ps ≤ 1000
      → All IsReal ps
      → IsBelow k a
      → IsBelow k f
      → Returns (k + length ps) (add_all start end fold rail ps (seen, a, f))
  unfolding add_all Returns
  add_all_fits rail [] k seen a f hk hp ha hf =
      ((seen, a, f), refl, (λ r s. omega (arith, ha r s)), λ r s. omega (arith, hf r s))
  add_all_fits rail (p ∷ ps) k seen a f hk hp ha hf =
      let status = normalize_payout_status fold p.status in
      let rest =
        add_all_fits rail ps (suc k) (payout_dedup_key rail p ∷ seen)
          (update a rail status (a rail status +ℤ p.amount_sats))
          (update f rail status (f rail status +ℤ p.fee_sats)) (omega arith) hp.1
          (update-IsBelow k a rail status p.amount_sats ha hp.0.0)
          (update-IsBelow k f rail status p.fee_sats hf hp.0.1) in
      let step : add_payout start end fold rail p a f
          ≡ ok (
            update a rail status (a rail status +ℤ p.amount_sats),
            update f rail status (f rail status +ℤ p.fee_sats),
          ) =
        unfold add_payout in
        rw
          (
            safe_add_fits k (a rail status) p.amount_sats (omega arith) (ha rail status) hp.0.0,
            safe_add_fits k (f rail status) p.fee_sats (omega arith) (hf rail status) hp.0.1,
          )
          refl in
      (rest.0, rw step rest.1, (λ r s. omega (arith, rest.2 r s)), λ r s. omega (arith, rest.3 r s))

  payout_loop_fits :
      (rail : Rail) (ps : List Payout) (k : ℕ) (p : Progress)
      → k + length ps ≤ 1000
      → All IsReal ps
      → IsBelow k p.1
      → IsBelow k p.2
      → Returns (k + length ps) (payout_loop start end fold rail ps p)
  unfolding Returns
  payout_loop_fits rail ps k p hk hp ha hf =
      let qs = keep (in_window start end fold) ps in
      let xs = fresh (payout_dedup_key rail) p.0 qs in
      let short = length-fresh (payout_dedup_key rail) p.0 qs in
      let shorter = length-keep (in_window start end fold) ps in
      let (q, e, below, below') =
        add_all_fits rail xs k p.0 p.1 p.2 (omega arith)
          (All-fresh (payout_dedup_key rail) IsReal p.0 qs
            (All-keep IsReal (in_window start end fold) ps hp))
          ha hf in
      (
        q,
        payout_loop-add_all start end fold rail ps p.0 p.1 p.2 ∙ e,
        (λ r s. omega (arith, below r s)),
        λ r s. omega (arith, below' r s),
      )

  -- A response of at most 1000 payouts whose amounts and fees are between 0 and 21 million bitcoins
  -- is never refused: it becomes a snapshot.
  pub build_payout_snapshot_total :
      (response : PayoutsResponse) (now : Time)
      → length response.onchain + length response.lightning ≤ max_payout_records
      → All IsReal response.onchain
      → All IsReal response.lightning
      → (snapshot : PayoutSnapshot) × (build_payout_snapshot start end fold response now
          ≡ ok snapshot)
  unfolding build_payout_snapshot Returns
  build_payout_snapshot_total response now few ho hl =
      let (p, ep, a, f) =
        payout_loop_fits onchain response.onchain 0 ([], zero_payout_totals, zero_payout_totals)
          (omega arith) ho (λ r s. omega arith) (λ r s. omega arith) in
      let (q, eq, a', f') =
        payout_loop_fits lightning response.lightning (length response.onchain) p (omega arith) hl
          (λ r s. omega (arith, a r s)) (λ r s. omega (arith, f r s)) in
      let small : ltb 1000 (length response.onchain + length response.lightning) ≡ false =
        ground arith in
      (record { collected_at = now; amounts = q.1; fees = q.2 }, rw (small, ep, eq))
