-- ===== src/Collector/History/Decimal/Exponent.antt =====
-- What the exponent parser accepts.
use braiins_pool_exporter.Base.{
  ℕ, ◌+◌, ◌-◌, ◌*◌, ◌≤◌, ◌≡◌, ◌≢◌, refl, true, false, [], ◌∷◌, arith, leb, ◌∙◌, Bool, if◌then◌else◌,
}
use braiins_pool_exporter.Base.Int.{ℤ, pos}
use braiins_pool_exporter.Base.Result.{ok, err}
use braiins_pool_exporter.Text.{Text, ◌==◌, trim}
use braiins_pool_exporter.Text.Laws.{trim-pass, all_pass}
use braiins_pool_exporter.Text.Numbers.{is_digit, all_digits, digits_value, negate}
use braiins_pool_exporter.Collector.History.Decimal.{
  exponent_loop, parse_base10_int, is_negative, drop_sign,
}

le-digits_value : (n : ℕ) (s : Text) → n ≤ digits_value n s
unfolding digits_value
le-digits_value n [] = omega arith
le-digits_value n (c ∷ s) = omega (arith, le-digits_value (n * 10 + (c - b'0')) s)

-- The loop's bound is a bound on the whole number: no digit that follows brings it back.
pub exponent_loop_lem :
    (n : ℕ) (s : Text)
    → n ≤ 1000
    → exponent_loop n s ≡ (
        if leb (digits_value n s) 1000
        then ok (digits_value n s)
        else err "decimal exponent is too large")
unfolding exponent_loop digits_value
exponent_loop_lem n [] h = ground arith
exponent_loop_lem n (c ∷ s) h =
    ground
      (arith, exponent_loop_lem (n * 10 + (c - b'0')) s, le-digits_value (n * 10 + (c - b'0')) s)

all_digits-pass : (s : Text) → all_pass is_digit s ≡ all_digits s
unfolding all_pass all_digits
all_digits-pass [] = refl
all_digits-pass (c ∷ s) = rw (all_digits-pass s)

-- The check of digits in the source, which trims them off, is a check of every byte.
pub trim_digits : (s : Text) → (trim is_digit s == []) ≡ all_digits s
trim_digits s = trim-pass is_digit s ∙ all_digits-pass s

-- A text of digits.
abbrev pub IsDigits : Text → Type 0
IsDigits s = (s ≢ []) × (all_digits s ≡ true)

pub ne-nil : (s : Text) → s ≢ [] → (s == []) ≡ false
unfolding ◌==◌
ne-nil [] h = absurd (h refl)
ne-nil (c ∷ s) h = refl

pub drop_sign_digits : (s : Text) → all_digits s ≡ true → drop_sign s ≡ s
unfolding drop_sign all_digits
drop_sign_digits [] h = refl
drop_sign_digits (c ∷ s) h = ground arith

pub is_negative_digits : (s : Text) → all_digits s ≡ true → is_negative s ≡ false
unfolding is_negative all_digits
is_negative_digits [] h = refl
is_negative_digits (c ∷ s) h = ground arith

abbrev pub minus : Bool → Text → Text
minus negative s = if negative then b'-' ∷ s else s

abbrev pub signed : Bool → ℕ → ℤ
signed negative n = if negative then negate n else pos n

pub minus-drop : (negative : Bool) (s : Text) → IsDigits s → drop_sign (minus negative s) ≡ s
minus-drop true s h = unfold drop_sign in refl
minus-drop false s h = drop_sign_digits s h.1

pub minus-negative :
    (negative : Bool) (s : Text) → IsDigits s → is_negative (minus negative s) ≡ negative
minus-negative true s h = unfold is_negative in refl
minus-negative false s h = is_negative_digits s h.1

minus-ne-nil : (negative : Bool) (s : Text) → IsDigits s → (minus negative s == []) ≡ false
minus-ne-nil true s h = unfold ◌==◌ in refl
minus-ne-nil false s h = ne-nil s h.0

-- An exponent of digits, with or without a minus, is read as the number that it spells if that is at
-- most 1000, and refused as too large if not.
pub parse_base10_int_bounded :
    (negative : Bool) (s : Text)
    → IsDigits s
    → parse_base10_int (minus negative s) ≡ (
        if leb (digits_value 0 s) 1000
        then ok (signed negative (digits_value 0 s))
        else err "decimal exponent is too large")
unfolding parse_base10_int
parse_base10_int_bounded negative s h =
    rw
      (
        minus-drop negative s h,
        minus-negative negative s h,
        minus-ne-nil negative s h,
        ne-nil s h.0,
        trim_digits s,
        h.1,
        exponent_loop_lem 0 s (omega arith),
      )
      (ground arith)
