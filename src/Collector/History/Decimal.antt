-- ===== src/Collector/History/Decimal.antt =====
-- `decimalToRat` and what it calls: the exact fraction that a decimal token spells. `big.Rat` keeps a
-- fraction in lowest terms; here it is any numerator over a denominator, of the same value.
pub mod Exponent
pub mod Print
pub mod Value
use braiins_pool_exporter.Base.{
  ℕ, zero, suc, ◌+◌, ◌-◌, ◌*◌, ◌^◌, String, Bool, true, false, not, ◌||◌, [], ◌∷◌, ◌++◌, Option,
  none, some, ltb, eqb, if◌then◌else◌, length, take, drop,
}
use braiins_pool_exporter.Base.Int.{ℤ, pos, negsuc, ◌+ℤ◌, ◌-ℤ◌, ◌*ℤ◌, pos_part, neg_part, leb_ℤ}
use braiins_pool_exporter.Base.Result.{Result, ok, err, ◌>>=◌, ◌>>◌, fail_if}
use braiins_pool_exporter.Text.{Text, ◌==◌, trim_space, trim, index_by}
use braiins_pool_exporter.Text.Numbers.{is_digit, digits_value, negate}
use braiins_pool_exporter.Braiins.Types.{Decimal}

pub record Rat : Type 0 where
  pub den : ℕ
  pub num : ℤ

-- `new(big.Rat)` and `x.Add(x, y)`
abbrev pub rat_zero : Rat
rat_zero = record { num = pos 0; den = 1 }

unfoldable pub rat_add : Rat → Rat → Rat
rat_add sum value = record {
  den = sum.den * value.den;
  num = sum.num *ℤ pos value.den +ℤ value.num *ℤ pos sum.den;
}

-- The sign in front: whether it is a minus, and the text behind it.
unfoldable pub is_negative : Text → Bool
is_negative [] = false
is_negative (c ∷ s) = eqb c b'-'

unfoldable pub drop_sign : Text → Text
drop_sign [] = []
drop_sign (c ∷ s) = if eqb c b'+' || eqb c b'-' then s else c ∷ s

-- The loop over the digits of an exponent.
unfoldable pub exponent_loop : ℕ → Text → Result String ℕ
exponent_loop value [] = ok value
exponent_loop value (c ∷ s) =
    let value' = value * 10 + (c - b'0') in
    let rest = exponent_loop value' s in
    if ltb 1000 value' then err "decimal exponent is too large" else rest

unfoldable pub parse_base10_int : Text → Result String ℤ
unfolding is_negative drop_sign exponent_loop
parse_base10_int text = do
  fail_if (text == []) "exponent is empty"
  let digits = drop_sign text
  fail_if (digits == [] || not (trim is_digit digits == [])) "exponent contains invalid digits"
  value ← exponent_loop 0 digits
  ok (if is_negative text then negate value else pos value)

-- 10 to a power, and 1 for an exponent that is not positive.
unfoldable pub pow10 : ℤ → ℕ
pow10 exp = if leb_ℤ exp (pos 0) then 1 else 10 ^ pos_part exp

abbrev is_exponent_mark : ℕ → Bool
is_exponent_mark c = eqb c b'e' || eqb c b'E'

-- The text in front of the exponent's mark, and the exponent: 0 where there is no mark.
unfoldable pub cut_exponent : Text → Option ℕ → Result String (Text × ℤ)
unfolding parse_base10_int
cut_exponent text none = ok (text, pos 0)
cut_exponent text (some idx) = do
  exponent ← parse_base10_int (drop (suc idx) text)
  ok (take idx text, exponent)

unfoldable pub split_exponent : Text → Result String (Text × ℤ)
unfolding cut_exponent index_by
split_exponent text = cut_exponent text (index_by is_exponent_mark text)

-- The digits with the point taken out, and how many stood behind it.
unfoldable pub cut_point : Text → Option ℕ → Text × ℕ
cut_point text none = (text, 0)
cut_point text (some idx) = (take idx text ++ drop (suc idx) text, length text - idx - 1)

unfoldable pub split_point : Text → Text × ℕ
unfolding cut_point index_by
split_point text = cut_point text (index_by (λ c. eqb c b'.') text)

-- The signed numerator, shifted by `scale` places.
unfoldable pub scaled : Bool → ℕ → ℤ → Rat
unfolding pow10
scaled negative n scale =
    let numerator = if negative then negate n else pos n in
    if leb_ℤ scale (pos 0)
    then record { num = numerator *ℤ pos (pow10 (pos 0 -ℤ scale)); den = 1 }
    else record { num = numerator; den = pow10 scale }

unfoldable pub decimal_to_rat : Decimal → Result String Rat
unfolding split_exponent split_point scaled
decimal_to_rat value = do
  let text = trim_space value
  fail_if (text == []) "decimal is empty"
  (mantissa, exponent) ← split_exponent (drop_sign text)
  let (digits, scale) = split_point mantissa
  fail_if (digits == [] || not (trim is_digit digits == [])) "decimal contains invalid digits"
  ok (scaled (is_negative text) (digits_value 0 digits) (pos scale -ℤ exponent))
