-- ===== src/Base/Float.antt =====
-- float64, which the language has no counterpart of: a type with the operations that the exporter
-- calls. No law is assumed.
use mathlib.Core.Bool.{Bool}
use mathlib.Core.Option.{Option}
use mathlib.Core.List.{List}
use Prim.Native.Nat.{ℕ}
use braiins_pool_exporter.Base.Int.{ℤ}

pub record Float64 : Type 1 where
  pub F : Type 0
  -- `strconv.ParseFloat(s, 64)`, `none` for an error
  pub parse_float : List ℕ → Option F
  pub is_inf : F → Bool
  pub is_nan : F → Bool
  -- `float64(n)` and `int64(x)`
  pub of_int : ℤ → F
  pub to_int : F → ℤ
  pub less : F → F → Bool
  pub mul : F → F → F
  pub pow : F → F → F
  -- the nearest float to a fraction, `Float64` of a big.Rat
  pub of_rat : (num : ℤ) (den : ℕ) → F
  -- `d.Seconds()` of a duration
  pub seconds : ℤ → F
