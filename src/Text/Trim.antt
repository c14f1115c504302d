-- ===== src/Text/Trim.antt =====
-- Both ends of what `strings.TrimSpace` returns.
use mathlib.Core.List.{reverse-reverse, reverse-append}
use braiins_pool_exporter.Base.{
  ℕ, zero, suc, ◌-◌, ◌≡◌, refl, sym, ◌∙◌, ap, [], ◌∷◌, ◌++◌, reverse, arith, eqb, Bool-cases, inl,
  inr,
}
use braiins_pool_exporter.Text.{Text, trim_space, drop_space, first_space, last_space}

-- A text neither begins nor ends with white space.
pub record IsTrimmed (s : Text) : Type 0 where
  pub front : first_space s ≡ 0
  pub back : last_space (reverse s) ≡ 0

drop_space-stops :
    (width : Text → ℕ) (skip : ℕ) (s : Text) → width [] ≡ 0 → width (drop_space width skip s) ≡ 0
unfolding drop_space
drop_space-stops width skip [] z = z
drop_space-stops width (suc skip) (a ∷ s) z = drop_space-stops width skip s z
drop_space-stops width zero (a ∷ s) z = elim (Bool-cases (eqb (width (a ∷ s)) 0)) [
  | inl stop ↦ rw stop (ground (arith, stop))
  | inr more ↦ rw more (drop_space-stops width (width (a ∷ s) - 1) s z)
]

drop_space-suffix :
    (width : Text → ℕ) (skip : ℕ) (s : Text)
    → (dropped : Text) × (s ≡ dropped ++ drop_space width skip s)
unfolding drop_space
drop_space-suffix width skip [] = ([], refl)
drop_space-suffix width (suc skip) (a ∷ s) =
    let (dropped, e) = drop_space-suffix width skip s in (a ∷ dropped, ap (λ t. a ∷ t) e)
drop_space-suffix width zero (a ∷ s) = elim (Bool-cases (eqb (width (a ∷ s)) 0)) [
  | inl stop ↦ rw stop ([], refl)
  | inr more ↦
      let (dropped, e) = drop_space-suffix width (width (a ∷ s) - 1) s in
      rw more (a ∷ dropped, ap (λ t. a ∷ t) e)
]

-- What a text begins with does not become white space when its end is cut off.
first_space-prefix : (s t : Text) → first_space (s ++ t) ≡ 0 → first_space s ≡ 0
unfolding first_space
first_space-prefix [] t h = refl
first_space-prefix (a ∷ []) [] h = h
first_space-prefix (a ∷ []) (b ∷ []) h = ground (arith, h)
first_space-prefix (a ∷ []) (b ∷ c ∷ t) h = ground (arith, h)
first_space-prefix (a ∷ b ∷ []) [] h = h
first_space-prefix (a ∷ b ∷ []) (c ∷ t) h = ground (arith, h)
first_space-prefix (a ∷ b ∷ c ∷ s) t h = h

pub trim_space-IsTrimmed : (s : Text) → IsTrimmed (trim_space s)
unfolding trim_space
trim_space-IsTrimmed s =
    let front = drop_space first_space 0 s in
    let back = drop_space last_space 0 (reverse front) in
    let (dropped, e) = drop_space-suffix last_space 0 (reverse front) in
    let whole : front ≡ reverse back ++ reverse dropped =
      sym (reverse-reverse front) ∙ ap reverse e ∙ reverse-append dropped back in
    record {
      front = first_space-prefix (reverse back) (reverse dropped) (
          ap first_space (sym whole)
          ∙ drop_space-stops first_space 0 s (unfold first_space in refl));
      back =
          ap last_space (reverse-reverse back)
          ∙ drop_space-stops last_space 0 (reverse front) (unfold last_space in refl);
    }
