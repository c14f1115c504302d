-- ===== src/Text/Split.antt =====
-- The parts of a text that `strings.Join` has put together with a byte that is in none of them.
use braiins_pool_exporter.Base.{
  ℕ, zero, suc, ◌-◌, ◌≡◌, ◌≢◌, refl, sym, ◌∙◌, ap, List, [], ◌∷◌, ◌++◌, All, append_assoc, arith,
  eqb, if◌then◌else◌, Bool-cases, inl, inr,
}
use braiins_pool_exporter.Text.{Text, trim_space, drop_space, first_space, last_space, join}
use braiins_pool_exporter.Text.Laws.{All-reverse}

drop_space-All :
    (P : ℕ → Type 0) (width : Text → ℕ) (skip : ℕ) (s : Text)
    → All P s
    → All P (drop_space width skip s)
unfolding drop_space
drop_space-All P width skip [] h = tt
drop_space-All P width (suc skip) (a ∷ s) h = drop_space-All P width skip s h.1
drop_space-All P width zero (a ∷ s) h = elim (Bool-cases (eqb (width (a ∷ s)) 0)) [
  | inl stop ↦ rw stop h
  | inr more ↦ rw more (drop_space-All P width (width (a ∷ s) - 1) s h.1)
]

-- What holds of the bytes of a text holds of those that are left of it.
pub trim_space-All : (P : ℕ → Type 0) (s : Text) → All P s → All P (trim_space s)
unfolding trim_space
trim_space-All P s h =
    let front = drop_space-All P first_space 0 s h in
    All-reverse P _ (drop_space-All P last_space 0 _ (All-reverse P _ front))

module _ (sep : ℕ) where
  abbrev pub Lacks : Text → Type 0
  Lacks s = All (λ c. c ≢ sep) s

  abbrev push : ℕ → List Text → List Text
  push c [] = (c ∷ []) ∷ []
  push c (p ∷ ps) = (c ∷ p) ∷ ps

  -- The parts between the separators.
  unfoldable split : Text → List Text
  split [] = [] ∷ []
  split (c ∷ s) = if eqb c sep then [] ∷ split s else push c (split s)

  split-Lacks : (p : Text) → Lacks p → split p ≡ p ∷ []
  unfolding split
  split-Lacks [] h = refl
  split-Lacks (c ∷ p) h = ground (arith, h.0, split-Lacks p h.1)

  split-append : (p s : Text) → Lacks p → split (p ++ sep ∷ s) ≡ p ∷ split s
  unfolding split
  split-append [] s h = ground arith
  split-append (c ∷ p) s h = ground (arith, h.0, split-append p s h.1)

  -- The parts of what is joined are those that were joined.
  split-join :
      (p : Text) (ps : List Text) → All Lacks (p ∷ ps) → split (join (p ∷ ps) (sep ∷ [])) ≡ p ∷ ps
  unfolding join
  split-join p [] h = split-Lacks p h.0
  split-join p (q ∷ ps) h =
      let rest = join (q ∷ ps) (sep ∷ []) in
      ap split (append_assoc p (sep ∷ []) rest)
      ∙ split-append p rest h.0
      ∙ ap (λ others. p ∷ others) (split-join q ps h.1)

  -- Texts without the separator are found again in what it joins.
  pub join-injective :
      (p q : Text) (ps qs : List Text)
      → All Lacks (p ∷ ps)
      → All Lacks (q ∷ qs)
      → join (p ∷ ps) (sep ∷ []) ≡ join (q ∷ qs) (sep ∷ [])
      → p ∷ ps ≡ q ∷ qs
  join-injective p q ps qs h k e = sym (split-join p ps h) ∙ ap split e ∙ split-join q qs k
