-- ===== src/Collector/History/Decimal/Value.antt =====
-- The value of a decimal in positional notation.
use native.Mathlib.Nat.{pow-suc}
use braiins_pool_exporter.Base.{
  ℕ, zero, suc, ◌<◌, ◌^◌, List, ◌≤◌, ◌≡◌, ◌≢◌, refl, ap, Bool, true, false, [], ◌∷◌, ◌++◌, some,
  arith, eqb, All, All-append, length, length-append, take, drop, append_assoc,
}
use braiins_pool_exporter.Base.Int.{
  ℤ, pos, negsuc, pos_part, neg_part, ◌-ℤ◌, ◌*ℤ◌, *ℤ_parts, eq_of_parts,
}
use braiins_pool_exporter.Base.Result.{ok}
use braiins_pool_exporter.Text.{Text, ◌==◌, index_by}
use braiins_pool_exporter.Text.Laws.{IsPlain, trim_space_plain}
use braiins_pool_exporter.Text.Numbers.{is_digit, all_digits, digits_value}
use braiins_pool_exporter.Collector.History.Decimal.{
  is_negative, drop_sign, is_exponent_mark, split_exponent, split_point, scaled, decimal_to_rat,
  Rat,
}
use braiins_pool_exporter.Collector.History.Decimal.Exponent.{
  IsDigits, ne-nil, minus, signed, trim_digits, parse_base10_int_bounded,
}

module _ {ℓ} {A : Type ℓ} where
  take-length : (xs ys : List A) → take (length xs) (xs ++ ys) ≡ xs
  take-length [] ys = refl
  take-length (x ∷ xs) ys = rw (take-length xs ys)

  drop-length : (xs : List A) (y : A) (ys : List A) → drop (suc (length xs)) (xs ++ y ∷ ys) ≡ ys
  drop-length [] y ys = refl
  drop-length (x ∷ xs) y ys = drop-length xs y ys

-- The first byte that passes the test stands behind a text of which none does.
index_by_at :
    (test : ℕ → Bool) (s : Text) (c : ℕ) (t : Text)
    → All (λ d. test d ≡ false) s
    → test c ≡ true
    → index_by test (s ++ c ∷ t) ≡ some (length s)
unfolding index_by
index_by_at test [] c t h e = rw e
index_by_at test (d ∷ s) c t h e = rw (h.0, index_by_at test s c t h.1 e)

-- What holds of each digit holds of each byte of digits.
digits-All {ℓ} :
    (P : ℕ → Type ℓ) (s : Text)
    → ((c : ℕ) → is_digit c ≡ true → P c)
    → all_digits s ≡ true
    → All P s
unfolding all_digits
digits-All P [] f h = tt
digits-All P (c ∷ s) f h = (f c (ground arith), digits-All P s f (ground arith))

all_digits-append :
    (s t : Text) → all_digits s ≡ true → all_digits t ≡ true → all_digits (s ++ t) ≡ true
unfolding all_digits
all_digits-append [] t hs ht = ht
all_digits-append (c ∷ s) t hs ht = ground (arith, all_digits-append s t)

-- `r` is the signed number `n`, divided by 10 to the power of `scale`.
pub record Represents (r : Rat) (negative : Bool) (n : ℕ) (scale : ℤ) : Type 0 where
  pub positive : 0 < r.den
  pub value :
      r.num *ℤ pos (10 ^ pos_part scale)
      ≡ signed negative n *ℤ pos (10 ^ neg_part scale) *ℤ pos r.den

*ℤ_one : (a : ℤ) → a *ℤ pos 1 ≡ a
*ℤ_one a = eq_of_parts _ _ (omega (arith, *ℤ_parts a (pos 1)))

pow-pos : (k : ℕ) → 0 < 10 ^ k
pow-pos zero = omega arith
pow-pos (suc k) = omega (arith, pow-pos k, pow-suc 10 k)

scaled_down :
    (negative : Bool) (n k : ℕ)
    → scaled negative n (pos (suc k)) ≡ record { num = signed negative n; den = 10 ^ suc k }
unfolding scaled ◌-ℤ◌
scaled_down negative n k = ground arith

scaled_up :
    (negative : Bool) (n k : ℕ)
    → scaled negative n (negsuc k) ≡ record { num = signed negative n *ℤ pos (10 ^ suc k); den = 1 }
unfolding scaled ◌-ℤ◌
scaled_up negative n k = ground arith

scaled-Represents :
    (negative : Bool) (n : ℕ) (scale : ℤ) → Represents (scaled negative n scale) negative n scale
scaled-Represents negative n (pos zero) =
    unfold scaled ◌-ℤ◌ in record { positive = omega arith; value = refl }
scaled-Represents negative n (pos (suc k)) =
    rw (scaled_down negative n k) (record { positive = pow-pos (suc k); value = rw *ℤ_one refl })
scaled-Represents negative n (negsuc k) =
    rw (scaled_up negative n k) (record { positive = omega arith; value = refl })

-- A decimal token: digits, a point, digits, and an exponent, with signs.
abbrev pub token : Bool → Text → Text → Bool → Text → Text
token negative whole fraction below exponent =
    minus negative (whole ++ b'.' ∷ fraction ++ b'e' ∷ minus below exponent)

module _ (whole fraction : Text) (hw : all_digits whole ≡ true)
    (hf : all_digits fraction ≡ true) where
  abbrev mantissa : Text
  mantissa = whole ++ b'.' ∷ fraction

  mantissa-All {ℓ} :
      (P : ℕ → Type ℓ) → ((c : ℕ) → is_digit c ≡ true → P c) → P b'.' → All P mantissa
  mantissa-All P f p =
      All-append P whole (b'.' ∷ fraction) (digits-All P whole f hw) (p, digits-All P fraction f hf)

  split_point-mantissa : split_point mantissa ≡ (whole ++ fraction, length fraction)
  unfolding split_point
  split_point-mantissa =
      rw
        (
          index_by_at (λ c. eqb c b'.') whole b'.' fraction
              (digits-All (λ d. eqb d b'.' ≡ false) whole (λ c h. ground arith) hw) refl,
          take-length whole (b'.' ∷ fraction),
          drop-length whole b'.' fraction,
          length-append whole (b'.' ∷ fraction),
        )
        (ap (λ (n : ℕ). (whole ++ fraction, n)) (omega arith))

  module _ (below : Bool) (exponent : Text) (he : IsDigits exponent) where
    split_exponent-mantissa :
        digits_value 0 exponent ≤ 1000
        → split_exponent (mantissa ++ b'e' ∷ minus below exponent)
          ≡ ok (mantissa, signed below (digits_value 0 exponent))
    unfolding split_exponent
    split_exponent-mantissa small =
        rw
          (
            index_by_at is_exponent_mark mantissa b'e' (minus below exponent)
                (mantissa-All (λ d. is_exponent_mark d ≡ false) (λ c h. ground arith) refl) refl,
            take-length mantissa (b'e' ∷ minus below exponent),
            drop-length mantissa b'e' (minus below exponent),
            parse_base10_int_bounded below exponent he,
          )
          (ground arith)

    abbrev body : Text
    body = mantissa ++ b'e' ∷ minus below exponent

    minus-IsPlain : (negative : Bool) (s : Text) → All IsPlain s → All IsPlain (minus negative s)
    minus-IsPlain true s h = (omega arith, h)
    minus-IsPlain false s h = h

    body-IsPlain : All IsPlain body
    body-IsPlain =
        All-append IsPlain mantissa _ (mantissa-All IsPlain (λ c h. ground arith) (omega arith)) (
          omega arith,
          minus-IsPlain below exponent (digits-All IsPlain exponent (λ c h. ground arith) he.1),
        )

drop_sign-token :
    (negative : Bool) (whole rest : Text)
    → all_digits whole ≡ true
    → drop_sign (minus negative (whole ++ b'.' ∷ rest)) ≡ whole ++ b'.' ∷ rest
unfolding drop_sign all_digits
drop_sign-token true whole rest h = refl
drop_sign-token false [] rest h = refl
drop_sign-token false (c ∷ s) rest h = ground arith

is_negative-token :
    (negative : Bool) (whole rest : Text)
    → all_digits whole ≡ true
    → is_negative (minus negative (whole ++ b'.' ∷ rest)) ≡ negative
unfolding is_negative all_digits
is_negative-token true whole rest h = refl
is_negative-token false [] rest h = refl
is_negative-token false (c ∷ s) rest h = ground arith

token-ne-nil :
    (negative : Bool) (whole rest : Text) → (minus negative (whole ++ b'.' ∷ rest) == []) ≡ false
unfolding ◌==◌
token-ne-nil true whole rest = refl
token-ne-nil false [] rest = refl
token-ne-nil false (c ∷ s) rest = refl

-- Digits, a point, digits and an exponent of at most 1000 are read as exactly the fraction that they
-- spell, with either sign in front of the number and of the exponent.
pub decimal_to_rat_value :
    (negative below : Bool) (whole fraction exponent : Text)
    → all_digits whole ≡ true
    → all_digits fraction ≡ true
    → whole ++ fraction ≢ []
    → IsDigits exponent
    → digits_value 0 exponent ≤ 1000
    → (r : Rat) × (decimal_to_rat (token negative whole fraction below exponent) ≡ ok r)
      × Represents r negative
          (digits_value 0 (whole ++ fraction))
          (pos (length fraction) -ℤ signed below (digits_value 0 exponent))
unfolding decimal_to_rat
decimal_to_rat_value negative below whole fraction exponent hw hf ne he small =
    let rest = fraction ++ b'e' ∷ minus below exponent in
    let plain =
      minus-IsPlain whole fraction hw hf below exponent he negative _
        (body-IsPlain whole fraction hw hf below exponent he) in
    (
      scaled negative (digits_value 0 (whole ++ fraction))
          (pos (length fraction) -ℤ signed below (digits_value 0 exponent)),
      rw
          (
            trim_space_plain _ plain,
            append_assoc whole (b'.' ∷ fraction) (b'e' ∷ minus below exponent),
            token-ne-nil negative whole rest,
            drop_sign-token negative whole rest hw,
            is_negative-token negative whole rest hw,
            ← append_assoc whole (b'.' ∷ fraction) (b'e' ∷ minus below exponent),
            split_exponent-mantissa whole fraction hw hf below exponent he small,
            split_point-mantissa whole fraction hw hf,
            ne-nil _ ne,
            trim_digits (whole ++ fraction),
            all_digits-append whole fraction hw hf,
          )
          refl,
      scaled-Represents negative _ _,
    )
