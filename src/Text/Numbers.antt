-- ===== src/Text/Numbers.antt =====
-- Decimal integers: `strconv.ParseInt`, `strconv.Atoi` and the verb %d.
use braiins_pool_exporter.Base.{
  ℕ, zero, suc, ◌+◌, ◌-◌, ◌*◌, ◌/◌, ◌%◌, ◌^◌, Bool, true, false, ◌&&◌, [], ◌∷◌, Option, none, some,
  ltb, leb, eqb, if◌then◌else◌,
}
use braiins_pool_exporter.Base.Int.{ℤ, pos, negsuc}
use braiins_pool_exporter.Text.{Text}

abbrev pub is_digit : ℕ → Bool
is_digit c = leb b'0' c && leb c b'9'

unfoldable pub all_digits : Text → Bool
all_digits [] = true
all_digits (c ∷ s) = is_digit c && all_digits s

-- The number that digits spell behind `n`.
unfoldable pub digits_value : ℕ → Text → ℕ
digits_value n [] = n
digits_value n (c ∷ s) = digits_value (n * 10 + (c - b'0')) s

-- -n
abbrev pub negate : ℕ → ℤ
negate zero = pos 0
negate (suc n) = negsuc n

-- What follows the sign: `none` for a syntax or a range error.
unfoldable pub parse_magnitude : Bool → Text → Option ℤ
unfolding all_digits digits_value
parse_magnitude negative [] = none
parse_magnitude negative (c ∷ s) =
    let n = digits_value 0 (c ∷ s) in
    if all_digits (c ∷ s)
    then if negative
      then if leb n (2 ^ 63) then some (negate n) else none
      else if ltb n (2 ^ 63)
      then some (pos n)
      else none
    else none

-- `strconv.ParseInt(s, 10, 64)`, and `strconv.Atoi(s)` where int has 64 bits.
unfoldable pub parse_int : Text → Option ℤ
unfolding parse_magnitude
parse_int [] = none
parse_int (c ∷ s) =
    if eqb c b'-'
    then parse_magnitude true s
    else if eqb c b'+'
    then parse_magnitude false s
    else parse_magnitude false (c ∷ s)

-- The digits of `n` in front of `out`; the first argument bounds their number.
unfoldable pub emit : ℕ → ℕ → Text → Text
emit zero n out = out
emit (suc fuel) n out =
    let out' = (b'0' + n % 10) ∷ out in
    let rest = emit fuel (n / 10) out' in if ltb n 10 then out' else rest

-- `fmt.Sprintf("%d", z)` of an int64, which has 19 digits at most.
unfoldable pub format_int : ℤ → Text
unfolding emit
format_int (pos n) = emit 20 n []
format_int (negsuc n) = b'-' ∷ emit 20 (suc n) []
