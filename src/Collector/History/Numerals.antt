-- ===== src/Collector/History/Numerals.antt =====
-- The integers in the keys of payouts and rewards.
use braiins_pool_exporter.Base.{
  ℕ, suc, ◌≤◌, ◌^◌, ◌≡◌, ◌≢◌, refl, sym, ◌∙◌, ap, true, [], ◌∷◌, arith,
}
use braiins_pool_exporter.Base.Int.{ℤ, pos, negsuc}
use braiins_pool_exporter.Base.Int64.{IsInt64}
use braiins_pool_exporter.Text.{Text}
use braiins_pool_exporter.Text.Numbers.{all_digits, digits_value, emit, format_int}
use braiins_pool_exporter.Text.Split.{Lacks}
use braiins_pool_exporter.Collector.History.Decimal.Print.{limit, emit-value, emit-digits}

all_digits-Lacks : (s : Text) → all_digits s ≡ true → Lacks 0 s
unfolding all_digits
all_digits-Lacks [] h = tt
all_digits-Lacks (c ∷ s) h = ground (arith, h, all_digits-Lacks s)

abbrev digits : ℕ → Text
digits n = emit 20 n []

digits-all_digits : (n : ℕ) → all_digits (digits n) ≡ true
digits-all_digits n = emit-digits 20 n [] (unfold all_digits in refl)

digits-injective : (m n : ℕ) → m ≤ 2 ^ 63 → n ≤ 2 ^ 63 → digits m ≡ digits n → m ≡ n
unfolding digits_value
digits-injective m n hm hn e =
    let value = λ (k : ℕ) (h : k ≤ 2 ^ 63). emit-value 20 k [] (unfold limit in omega arith) in
    let same : digits_value m [] ≡ digits_value n [] =
      sym (value m hm) ∙ ap (digits_value 0) e ∙ value n hn in
    same

pub format_int-Lacks : (z : ℤ) → Lacks 0 (format_int z)
unfolding format_int
format_int-Lacks (pos n) = all_digits-Lacks _ (digits-all_digits n)
format_int-Lacks (negsuc n) = (ground arith, all_digits-Lacks _ (digits-all_digits (suc n)))

digits-not-minus : (m : ℕ) (s : Text) → digits m ≢ b'-' ∷ s
unfolding all_digits
digits-not-minus m s e =
    let odd : all_digits (b'-' ∷ s) ≡ true = sym (ap all_digits e) ∙ digits-all_digits m in cc

pub format_int-injective : (y z : ℤ) → IsInt64 y → IsInt64 z → format_int y ≡ format_int z → y ≡ z
unfolding format_int
format_int-injective (pos m) (pos n) hy hz e =
    ap pos (digits-injective m n (omega arith) (omega arith) e)
format_int-injective (pos m) (negsuc n) hy hz e = absurd (digits-not-minus m _ e)
format_int-injective (negsuc m) (pos n) hy hz e = absurd (digits-not-minus n _ (sym e))
format_int-injective (negsuc m) (negsuc n) hy hz e =
    let tails : digits (suc m) ≡ digits (suc n) = cc in
    let next : suc m ≡ suc n = digits-injective (suc m) (suc n) (omega arith) (omega arith) tails in
    let same : m ≡ n = omega arith in ap negsuc same
