-- ===== src/Collector/History/Payouts/Sums.antt =====
-- What the loop over the payouts of a rail adds up.
use braiins_pool_exporter.Base.{
  String, Bool, true, false, ◌&&◌, ◌≡◌, refl, List, [], ◌∷◌, Option, none, some, arith,
  if◌then◌else◌, keep, All, Bool-cases, inl, inr, ap, fun_ext,
}
use braiins_pool_exporter.Base.Int.{ℤ, pos, ◌+ℤ◌, +ℤ_zero, int_laws}
use braiins_pool_exporter.Base.Int64.{IsInt64}
use braiins_pool_exporter.Base.Result.{Result, ok, ◌>>=◌, >>=-eq-ok}
use braiins_pool_exporter.Text.{Text, contains}
use braiins_pool_exporter.Braiins.Types.{Payout}
use braiins_pool_exporter.Base.Time.{Time}
use braiins_pool_exporter.Collector.Distinct.{fresh}
use braiins_pool_exporter.Collector.History.SafeAdd.{safe_add, safe_add_exact}
use braiins_pool_exporter.Collector.History.Window.{timestamp_in_window}
use braiins_pool_exporter.Collector.History.Payouts.{
  Progress, payout_timestamp, add_payout, payout_loop, or_fail,
}
use braiins_pool_exporter.Collector.History.Payouts.Keys.{payout_dedup_key}
use braiins_pool_exporter.Collector.History.Payouts.Labels.{
  Rail, PayoutStatus, normalize_payout_status, Totals, update, same_rail, same_status, same_rail→eq,
  same_status→eq,
}

-- Every total is an int64, and so is every amount of a decoded payout.
abbrev pub IsInRange : Totals → Type 0
IsInRange t = (r : Rail) (s : PayoutStatus) → IsInt64 (t r s)

abbrev pub IsDecoded : Payout → Type 0
IsDecoded p = IsInt64 p.amount_sats × IsInt64 p.fee_sats

safe_add-some :
    (l r z : ℤ) → IsInt64 l → IsInt64 r → safe_add l r ≡ some z → (z ≡ l +ℤ r) × IsInt64 z
safe_add-some l r z hl hr e = ground (arith, safe_add_exact l r hl hr)

or_fail-ok : {A : Type 0} (o : Option A) (m : String) {a : A} → or_fail o m ≡ ok a → o ≡ some a
or_fail-ok none m e = cc
or_fail-ok (some b) m e = cc

update-adds :
    (t : Totals) (rail r : Rail) (status s : PayoutStatus) (x v : ℤ)
    → x ≡ t rail status +ℤ v
    → update t rail status x r s
      ≡ t r s +ℤ (if same_rail r rail && same_status s status then v else pos 0)
unfolding update
update-adds t rail r status s x v e =
    ground (arith, same_rail→eq r rail, same_status→eq s status, +ℤ_zero (t r s))

update-IsInRange :
    (t : Totals) (rail : Rail) (status : PayoutStatus) (x : ℤ)
    → IsInRange t
    → IsInt64 x
    → IsInRange (update t rail status x)
unfolding update
update-IsInRange t rail status x ht hx r s = ground (arith, ht r s)

module _ (start end : Time) (fold : Text → Text) where
  abbrev pub in_window : Payout → Bool
  in_window p = timestamp_in_window (payout_timestamp p) start end

  -- The sum of a field over the payouts of one status.
  unfoldable pub total : (Payout → ℤ) → PayoutStatus → List Payout → ℤ
  total field status [] = pos 0
  total field status (p ∷ ps) =
      (if same_status status (normalize_payout_status fold p.status) then field p else pos 0)
      +ℤ total field status ps

  -- The loop without its two tests.
  unfoldable pub add_all : Rail → List Payout → Progress → Result String Progress
  add_all rail [] progress = ok progress
  add_all rail (p ∷ ps) (seen, amounts, fees) =
      add_payout start end fold rail p amounts fees >>= λ (amounts', fees').
      add_all rail ps (payout_dedup_key rail p ∷ seen, amounts', fees')

  pub payout_loop-add_all :
      (rail : Rail) (ps : List Payout) (seen : List Text) (amounts fees : Totals)
      → payout_loop start end fold rail ps (seen, amounts, fees)
        ≡ add_all rail
            (fresh (payout_dedup_key rail) seen (keep in_window ps))
            (seen, amounts, fees)
  unfolding payout_loop add_all fresh
  payout_loop-add_all rail [] seen amounts fees = refl
  payout_loop-add_all rail (p ∷ ps) seen amounts fees =
      let key = payout_dedup_key rail p in
      elim (Bool-cases (in_window p)) [
        | inr outside ↦ rw outside (payout_loop-add_all rail ps seen amounts fees)
        | inl inside ↦ elim (Bool-cases (contains seen key)) [
          | inl old ↦ rw (inside, old) (payout_loop-add_all rail ps seen amounts fees)
          | inr new ↦
              rw (inside, new)
                (ap (λ next. add_payout start end fold rail p amounts fees >>= next)
                  (fun_ext (λ x. payout_loop-add_all rail ps (key ∷ seen) x.0 x.1)))
        ]
      ]

  -- A payout that is added is added without overflow, to the totals of its status alone.
  add_payout-inv :
      (rail : Rail) (p : Payout) (a f a' f' : Totals)
      → add_payout start end fold rail p a f ≡ ok (a', f')
      → let status = normalize_payout_status fold p.status in
        (x : ℤ) × (y : ℤ) × (safe_add (a rail status) p.amount_sats ≡ some x)
        × (safe_add (f rail status) p.fee_sats ≡ some y)
        × (update a rail status x ≡ a')
        × (update f rail status y ≡ f')
  unfolding add_payout
  add_payout-inv rail p a f a' f' e =
      let (x, ex, e') = >>=-eq-ok _ _ e in
      let (y, ey, done) = >>=-eq-ok _ _ e' in (x, y, or_fail-ok _ _ ex, or_fail-ok _ _ ey, cc, cc)

  -- The sums are those of the integers, and stay in range.
  pub record Adds (rail : Rail) (ps : List Payout) (a f a' f' : Totals) : Type 0 where
    pub amounts :
        (r : Rail) (s : PayoutStatus)
        → a' r s ≡ a r s +ℤ (if same_rail r rail then total (λ p. p.amount_sats) s ps else pos 0)
    pub fees :
        (r : Rail) (s : PayoutStatus)
        → f' r s ≡ f r s +ℤ (if same_rail r rail then total (λ p. p.fee_sats) s ps else pos 0)
    pub amounts_fit : IsInRange a'
    pub fees_fit : IsInRange f'

  -- One more payout in front.
  sum_step :
      (mine same : Bool) (t u v x rest : ℤ)
      → u ≡ t +ℤ (if mine && same then x else pos 0)
      → v ≡ u +ℤ (if mine then rest else pos 0)
      → v ≡ t +ℤ (if mine then (if same then x else pos 0) +ℤ rest else pos 0)
  sum_step true true t u v x rest e e' = rw (e', e) (omega int_laws)
  sum_step true false t u v x rest e e' = rw (e', e) (omega int_laws)
  sum_step false same t u v x rest e e' = rw (e', e) (omega int_laws)

  pub add_all-Adds :
      (rail : Rail) (ps : List Payout) (seen seen' : List Text) (a f a' f' : Totals)
      → All IsDecoded ps
      → IsInRange a
      → IsInRange f
      → add_all rail ps (seen, a, f) ≡ ok (seen', a', f')
      → Adds rail ps a f a' f'
  unfolding add_all total
  add_all-Adds rail [] seen seen' a f a' f' hp ha hf e =
      let ea : a ≡ a' = cc in
      let ef : f ≡ f' = cc in
      rw (← ea, ← ef)
        (record {
          amounts = λ r s. ground (arith, +ℤ_zero (a r s));
          fees = λ r s. ground (arith, +ℤ_zero (f r s));
          amounts_fit = ha;
          fees_fit = hf;
        })
  add_all-Adds rail (p ∷ ps) seen seen' a f a' f' hp ha hf e =
      let status = normalize_payout_status fold p.status in
      let ((a1, f1), e1, e2) = >>=-eq-ok _ _ e in
      let (x, y, ex, ey, ea, ef) = add_payout-inv rail p a f a1 f1 e1 in
      let (vx, rx) = safe_add-some _ _ x (ha rail status) hp.0.0 ex in
      let (vy, ry) = safe_add-some _ _ y (hf rail status) hp.0.1 ey in
      let rest =
        add_all-Adds rail ps (payout_dedup_key rail p ∷ seen) seen' a1 f1 a' f' hp.1
          (rw (← ea) (update-IsInRange a rail status x ha rx))
          (rw (← ef) (update-IsInRange f rail status y hf ry)) e2 in
      record {
        amounts = λ r s.
            sum_step (same_rail r rail) (same_status s status) _ (a1 r s) _ _ _
              (rw (← ea) (update-adds a rail r status s x p.amount_sats vx)) (rest.amounts r s);
        fees = λ r s.
            sum_step (same_rail r rail) (same_status s status) _ (f1 r s) _ _ _
              (rw (← ef) (update-adds f rail r status s y p.fee_sats vy)) (rest.fees r s);
        amounts_fit = rest.amounts_fit;
        fees_fit = rest.fees_fit;
      }
