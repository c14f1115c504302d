-- ===== src/Collector/Decimals.antt =====
-- `decimalToFloat` in internal/collector/account.go, and the loop over the windows of a response. Go
-- visits the windows in any order; the result and the message of an error are the same in each.
pub mod Order
use braiins_pool_exporter.Base.{String, ◌||◌, List, [], ◌∷◌, Option, none, some, if◌then◌else◌}
use braiins_pool_exporter.Base.Float.{Float64}
use braiins_pool_exporter.Base.Result.{Result, ok, err, ◌>>=◌}
use braiins_pool_exporter.Text.{Text, Map, ◌==◌}
use braiins_pool_exporter.Braiins.Types.{Decimal}

module _ (fl : Float64) where
  open fl use {F, parse_float, is_inf, is_nan}

  unfoldable pub decimal_to_float : Decimal → Option F
  decimal_to_float value = elim (parse_float value) [
    | none ↦ none
    | some parsed ↦ if is_inf parsed || is_nan parsed then none else some parsed
  ]

  abbrev pub float_or : String → Option F → Result String F
  float_or message none = err message
  float_or message (some x) = ok x

  -- The windows that are not blank, each with its number.
  unfoldable pub parse_windows : String → List (Text × Decimal) → Result String (Map F)
  unfolding decimal_to_float ◌==◌
  parse_windows message [] = ok []
  parse_windows message ((window, value) ∷ rest) =
      let others = parse_windows message rest in
      if value == []
      then others
      else (float_or message (decimal_to_float value) >>= λ parsed.
          others >>= λ windows. ok ((window, parsed) ∷ windows))
