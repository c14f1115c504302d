-- ===== src/Collector/History/SafeAdd.antt =====
-- `safeAddInt64`: addition of int64 that reports an overflow.
use braiins_pool_exporter.Base.{◌≡◌, Bool, ◌&&◌, ◌||◌, Option, none, some, arith, if◌then◌else◌}
use braiins_pool_exporter.Base.Int.{
  ℤ, pos, ◌+ℤ◌, ◌-ℤ◌, ltb_ℤ, leb_ℤ, ◌≤ℤ◌, int_laws, +ℤ_parts, -ℤ_parts,
}
use braiins_pool_exporter.Base.Int64.{IsInt64, max_int64, min_int64, add64, sub64, wrap64_id}

unfoldable pub safe_add : ℤ → ℤ → Option ℤ
safe_add left right =
    if ltb_ℤ (pos 0) right && ltb_ℤ (sub64 max_int64 right) left
      || ltb_ℤ right (pos 0) && ltb_ℤ left (sub64 min_int64 right)
    then none
    else some (add64 left right)

-- The bounds that the guard computes do not wrap around where it looks at them.
sub64_max : (r : ℤ) → IsInt64 r → pos 0 ≤ℤ r → sub64 max_int64 r ≡ max_int64 -ℤ r
unfolding sub64
sub64_max r h p = wrap64_id _ (omega int_laws)

sub64_min : (r : ℤ) → IsInt64 r → r ≤ℤ pos 0 → sub64 min_int64 r ≡ min_int64 -ℤ r
unfolding sub64
sub64_min r h p = wrap64_id _ (omega int_laws)

add64_id : (l r : ℤ) → IsInt64 (l +ℤ r) → add64 l r ≡ l +ℤ r
unfolding add64
add64_id l r h = wrap64_id _ h

abbrev pub is_int64 : ℤ → Bool
is_int64 z = leb_ℤ min_int64 z && leb_ℤ z max_int64

-- A sum of two int64 is returned exactly when it is an int64, and is then the sum of the integers.
pub safe_add_exact :
    (l r : ℤ)
    → IsInt64 l
    → IsInt64 r
    → safe_add l r ≡ (if is_int64 (l +ℤ r) then some (l +ℤ r) else none)
unfolding safe_add
safe_add_exact l r hl hr = ground (
  arith,
  sub64_max r hr,
  sub64_min r hr,
  add64_id l r,
  +ℤ_parts l r,
  -ℤ_parts max_int64 r,
  -ℤ_parts min_int64 r,
)
