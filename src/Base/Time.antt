-- ===== src/Base/Time.antt =====
-- Instants and durations: nanoseconds, an instant counted from 1970-01-01 UTC.
use Prim.Native.Nat.{ℕ}
use braiins_pool_exporter.Base.Tests.{if◌then◌else◌}
use braiins_pool_exporter.Base.Int.{ℤ, pos, ◌*ℤ◌, ◌-ℤ◌, ltb_ℤ}
use braiins_pool_exporter.Base.Int64.{max_int64, min_int64, add64}

abbrev pub Time : Type 0
Time = ℤ

abbrev pub Duration : Type 0
Duration = ℤ

abbrev pub second : ℕ
second = 1_000_000_000

abbrev pub day : ℕ
day = 86_400_000_000_000

-- The seconds from the year 1 to 1970.
abbrev unix_to_internal : ℤ
unix_to_internal = pos 62_135_596_800

-- `time.Unix(sec, 0)`: a `Time` counts its seconds from the year 1, in an int64 that wraps around.
unfoldable pub unix : ℤ → Time
unfolding add64
unix sec = (add64 sec unix_to_internal -ℤ unix_to_internal) *ℤ pos second

-- `t.Sub(u)`, which stops at the ends of int64.
unfoldable pub sub : Time → Time → Duration
sub t u =
    if ltb_ℤ max_int64 (t -ℤ u)
    then max_int64
    else if ltb_ℤ (t -ℤ u) min_int64
    then min_int64
    else t -ℤ u
