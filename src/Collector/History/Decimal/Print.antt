-- ===== src/Collector/History/Decimal/Print.antt =====
-- The exponents that are printed are read back.
use braiins_pool_exporter.Base.{
  ℕ, zero, suc, ◌+◌, ◌-◌, ◌*◌, ◌/◌, ◌%◌, ◌≤◌, ◌<◌, ◌≡◌, ◌≢◌, refl, ◌∙◌, ap, inl, inr, Bool, true,
  false, [], ◌∷◌, arith, ltb, leb, Bool-cases,
}
use braiins_pool_exporter.Base.Result.{ok}
use braiins_pool_exporter.Text.{Text}
use braiins_pool_exporter.Text.Numbers.{all_digits, digits_value, emit, format_int}
use braiins_pool_exporter.Collector.History.Decimal.{parse_base10_int}
use braiins_pool_exporter.Collector.History.Decimal.Exponent.{
  IsDigits, minus, signed, parse_base10_int_bounded,
}

-- So many digits hold the numbers below it.
unfoldable pub limit : ℕ → ℕ
limit zero = 1
limit (suc fuel) = limit fuel * 10

pub emit-value :
    (fuel n : ℕ) (out : Text)
    → n < limit fuel
    → digits_value 0 (emit fuel n out) ≡ digits_value n out
unfolding emit limit digits_value
emit-value zero n out h = let none_left : n ≡ 0 = omega arith in rw none_left
emit-value (suc fuel) n out h = elim (Bool-cases (ltb n 10)) [
  | inl small ↦
      let same : 0 * 10 + (b'0' + n % 10 - b'0') ≡ n = ground (arith, small) in
      rw small (ap (λ m. digits_value m out) same)
  | inr large ↦
      let same : n / 10 * 10 + (b'0' + n % 10 - b'0') ≡ n = omega arith in
      rw large (
        emit-value fuel (n / 10) ((b'0' + n % 10) ∷ out) (omega arith)
        ∙ ap (λ m. digits_value m out) same)
]

pub emit-digits :
    (fuel n : ℕ) (out : Text) → all_digits out ≡ true → all_digits (emit fuel n out) ≡ true
unfolding emit all_digits
emit-digits zero n out h = h
emit-digits (suc fuel) n out h =
    let digit : all_digits ((b'0' + n % 10) ∷ out) ≡ true = ground (arith, h) in
    elim (Bool-cases (ltb n 10)) [
      | inl small ↦ rw small digit
      | inr large ↦ rw large (emit-digits fuel (n / 10) ((b'0' + n % 10) ∷ out) digit)
    ]

emit-ne-nil : (fuel n c : ℕ) (out : Text) → emit fuel n (c ∷ out) ≢ []
unfolding emit
emit-ne-nil zero n c out = λ e. cc
emit-ne-nil (suc fuel) n c out = elim (Bool-cases (ltb n 10)) [
  | inl small ↦ rw (emit, small) (λ e. cc)
  | inr large ↦ rw (emit, large) (emit-ne-nil fuel (n / 10) (b'0' + n % 10) (c ∷ out))
]

emit-IsDigits : (fuel n : ℕ) → IsDigits (emit (suc fuel) n [])
unfolding emit
emit-IsDigits fuel n = (some_digit, emit-digits (suc fuel) n [] (unfold all_digits in refl))
  where
    some_digit : emit (suc fuel) n [] ≢ []
    some_digit = elim (Bool-cases (ltb n 10)) [
      | inl small ↦ rw (emit, small) (λ e. cc)
      | inr large ↦ rw (emit, large) (emit-ne-nil fuel (n / 10) (b'0' + n % 10) [])
    ]

format_int-signed :
    (negative : Bool) (n : ℕ)
    → 1 ≤ n
    → format_int (signed negative n) ≡ minus negative (emit 20 n [])
unfolding format_int
format_int-signed negative zero h = absurd (omega arith)
format_int-signed true (suc n) h = refl
format_int-signed false (suc n) h = refl

-- An integer from -1000 to 1000, 0 apart, is read back from the text that it is printed as.
pub parse_base10_int-format_int :
    (negative : Bool) (n : ℕ)
    → 1 ≤ n
    → n ≤ 1000
    → parse_base10_int (format_int (signed negative n)) ≡ ok (signed negative n)
parse_base10_int-format_int negative n some_n few =
    let digits = emit-IsDigits 19 n in
    let value : digits_value 0 (emit 20 n []) ≡ n =
      emit-value 20 n [] (unfold limit in omega arith) ∙ (unfold digits_value in refl) in
    let fits : leb n 1000 ≡ true = ground (arith, few) in
    rw
      (
        format_int-signed negative n some_n,
        parse_base10_int_bounded negative (emit 20 n []) digits,
        value,
        fits,
      )
      refl
