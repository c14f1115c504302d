-- ===== src/Collector/History/Window.antt =====
-- The window of days and the test of a timestamp. Days are counted from 1970-01-01 UTC.
use braiins_pool_exporter.Base.{
  ℕ, suc, ◌+◌, ◌-◌, ◌*◌, ◌/◌, ◌≡◌, refl, ◌↔◌, ◌⊎◌, Bool, true, not, ◌&&◌, arith, if◌then◌else◌,
}
use braiins_pool_exporter.Base.Int.{
  ℤ, pos, negsuc, ◌+ℤ◌, ◌-ℤ◌, ◌*ℤ◌, ltb_ℤ, eqb_ℤ, ◌≤ℤ◌, ◌<ℤ◌, pos_part, neg_part, eq_of_parts,
  +ℤ_parts, -ℤ_parts, *ℤ_parts,
}
use braiins_pool_exporter.Text.{Text}
use braiins_pool_exporter.Base.Time.{Time, day, unix}

-- The day that an instant lies on: the quotient by a day, rounded down.
unfoldable pub day_of : Time → ℤ
day_of (pos n) = pos (n / day)
day_of (negsuc n) = negsuc (n / day)

-- `time.Date` at midnight of a day, UTC.
unfoldable pub midnight : ℤ → Time
midnight d = d *ℤ pos day

pub record DateWindow : Type 0 where
  pub from_date : Text
  pub to_date : Text
  pub start : Time
  pub end : Time

-- `date_only` is `t.Format(time.DateOnly)`, of the midnight of a day.
unfoldable pub date_window : (ℤ → Text) → ℤ → Time → DateWindow
unfolding day_of midnight
date_window date_only history_days now =
    let to_day = day_of now in
    let from_day = to_day -ℤ (history_days -ℤ pos 1) in
    record {
      from_date = date_only from_day;
      to_date = date_only to_day;
      start = midnight from_day;
      end = midnight to_day +ℤ pos (day - 1);
    }

-- A timestamp of 0 is missing, and passes.
unfoldable pub timestamp_in_window : ℤ → Time → Time → Bool
unfolding unix
timestamp_in_window sec start end =
    let ts = unix sec in
    if eqb_ℤ sec (pos 0) then true else not (ltb_ℤ ts start) && not (ltb_ℤ end ts)

midnight_parts :
    (d : ℤ) → pos_part (midnight d) + neg_part d * day ≡ neg_part (midnight d) + pos_part d * day
unfolding midnight
midnight_parts d = omega (arith, *ℤ_parts d (pos day))

ruleset day_laws = (arith, +ℤ_parts, -ℤ_parts, eq_of_parts, midnight_parts)

day_of_bounds : (t : Time) → (midnight (day_of t) ≤ℤ t) × (t <ℤ midnight (day_of t) +ℤ pos day)
unfolding day_of
day_of_bounds (pos n) = omega day_laws
day_of_bounds (negsuc n) = omega day_laws

-- The window holds the present instant and is as many days long as configured. It starts at the midnight
-- of a day, which `from_date` names, and ends one nanosecond before the midnight behind a day, which
-- `to_date` names.
pub date_window_bounds :
    (date_only : ℤ → Text) (n : ℕ) (now : Time)
    → let w = date_window date_only (pos (suc n)) now in
      (w.start ≤ℤ now)
      × (now ≤ℤ w.end)
      × (w.end +ℤ pos 1 ≡ w.start +ℤ pos (suc n * day))
      × ((first : ℤ) × (w.start ≡ first *ℤ pos day) × (w.from_date ≡ date_only first))
      × ((last : ℤ) × (w.end +ℤ pos 1 ≡ (last +ℤ pos 1) *ℤ pos day) × (w.to_date ≡ date_only last))
unfolding date_window midnight
date_window_bounds date_only n now =
    let (low, high) = day_of_bounds now in
    let last = day_of now in
    (
      omega day_laws,
      omega day_laws,
      omega day_laws,
      (last -ℤ (pos (suc n) -ℤ pos 1), refl, refl),
      (
        last,
        eq_of_parts _ _
            (omega (day_laws, *ℤ_parts last (pos day), *ℤ_parts (last +ℤ pos 1) (pos day))),
        refl,
      ),
    )

-- A timestamp passes exactly when it is 0, which means that it is missing, or its instant lies between
-- the two ends, both included.
pub timestamp_in_window_iff :
    (sec : ℤ) (start end : Time)
    → (timestamp_in_window sec start end ≡ true)
      ↔ ((sec ≡ pos 0) ⊎ ((start ≤ℤ unix sec) × (unix sec ≤ℤ end)))
unfolding timestamp_in_window
timestamp_in_window_iff sec start end =
    (λ p. ground (arith, eq_of_parts sec (pos 0)), λ p. ground (arith, eq_of_parts sec (pos 0)))
