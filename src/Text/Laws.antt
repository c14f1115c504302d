-- ===== src/Text/Laws.antt =====
-- Laws of equality, trimming and maps.
use mathlib.Core.List.{reverse-reverse, reverse-cons}
use braiins_pool_exporter.Base.{
  ℕ, ◌≤◌, ◌<◌, ◌≡◌, ◌≢◌, refl, ◌↔◌, Bool, true, false, Bool-cases, inl, inr, ◌&&◌, ◌++◌, [], ◌∷◌,
  arith, reverse, All, All-append,
}
use braiins_pool_exporter.Text.{
  Text, codes, ◌==◌, trim_left, trim, trim_space, drop_space, first_space, last_space,
}

==→eq : (s t : Text) → s == t ≡ true → s ≡ t
unfolding ◌==◌
==→eq [] [] h = refl
==→eq [] (b ∷ t) h = cc
==→eq (a ∷ s) [] h = cc
==→eq (a ∷ s) (b ∷ t) h = ground (arith, ==→eq s t)

pub ==_refl : (s : Text) → (s == s) ≡ true
unfolding ◌==◌
==_refl [] = refl
==_refl (a ∷ s) = ground (arith, ==_refl s)

pub ==_iff : (s t : Text) → ((s == t) ≡ true) ↔ (s ≡ t)
==_iff s t = (==→eq s t, λ e. rw e (==_refl t))

pub is_not : (s t : Text) → (s == t) ≡ false → s ≢ t
is_not s t h e = let same = (==_iff s t).1 e in cc

-- A printing ASCII byte.
abbrev pub IsPlain : ℕ → Type 0
IsPlain c = (33 ≤ c) × (c < 128)

first_space_plain : (c : ℕ) (s : Text) → IsPlain c → first_space (c ∷ s) ≡ 0
unfolding first_space
first_space_plain c [] h = ground arith
first_space_plain c (d ∷ []) h = ground arith
first_space_plain c (d ∷ e ∷ s) h = ground arith

last_space_plain : (c : ℕ) (s : Text) → IsPlain c → last_space (c ∷ s) ≡ 0
unfolding last_space
last_space_plain c [] h = ground arith
last_space_plain c (d ∷ []) h = ground arith
last_space_plain c (d ∷ e ∷ s) h = ground arith

drop_space_stop :
    (width : Text → ℕ) (c : ℕ) (s : Text) → width (c ∷ s) ≡ 0 → drop_space width 0 (c ∷ s) ≡ c ∷ s
unfolding drop_space
drop_space_stop width c s h = rw h

pub All-reverse {ℓ} : (P : ℕ → Type ℓ) (xs : Text) → All P xs → All P (reverse xs)
All-reverse P [] h = tt
All-reverse P (x ∷ xs) h =
    rw reverse-cons (All-append P (reverse xs) (x ∷ []) (All-reverse P xs h.1) (h.0, tt))

drop_space-first : (s : Text) → All IsPlain s → drop_space first_space 0 s ≡ s
drop_space-first [] h = unfold drop_space in refl
drop_space-first (c ∷ s) h = drop_space_stop _ c s (first_space_plain c s h.0)

drop_space-last : (s : Text) → All IsPlain s → drop_space last_space 0 s ≡ s
drop_space-last [] h = unfold drop_space in refl
drop_space-last (c ∷ s) h = drop_space_stop _ c s (last_space_plain c s h.0)

-- A text with no white space and no byte above ASCII is left as it is.
pub trim_space_plain : (s : Text) → All IsPlain s → trim_space s ≡ s
unfolding trim_space
trim_space_plain s h =
    rw (drop_space-first s h, drop_space-last (reverse s) (All-reverse _ s h)) (reverse-reverse s)

-- Every byte of the text passes.
unfoldable pub all_pass : (ℕ → Bool) → Text → Bool
all_pass p [] = true
all_pass p (c ∷ s) = p c && all_pass p s

trim_left-pass : (p : ℕ → Bool) (s : Text) → all_pass p s ≡ true → trim_left p s ≡ []
unfolding trim_left all_pass
trim_left-pass p [] h = refl
trim_left-pass p (c ∷ s) h = ground (arith, trim_left-pass p s)

trim_left-stop :
    (p : ℕ → Bool) (s : Text) → all_pass p s ≡ false → all_pass p (trim_left p s) ≡ false
unfolding trim_left all_pass
trim_left-stop p [] h = cc
trim_left-stop p (c ∷ s) h = ground (arith, trim_left-stop p s)

all_pass-append : (p : ℕ → Bool) (s t : Text) → all_pass p (s ++ t) ≡ (all_pass p s && all_pass p t)
unfolding all_pass
all_pass-append p [] t = refl
all_pass-append p (c ∷ s) t = ground (arith, all_pass-append p s t)

all_pass-reverse : (p : ℕ → Bool) (s : Text) → all_pass p (reverse s) ≡ all_pass p s
unfolding all_pass
all_pass-reverse p [] = refl
all_pass-reverse p (c ∷ s) =
    rw (reverse-cons, all_pass-append) (ground (arith, all_pass-reverse p s))

trim_of_pass : (p : ℕ → Bool) (s : Text) → all_pass p s ≡ true → trim p s ≡ []
unfolding trim trim_left
trim_of_pass p s h = rw (trim_left-pass p s h)

ne-nil_of_stop : (p : ℕ → Bool) (s : Text) → all_pass p s ≡ false → (s == []) ≡ false
unfolding all_pass ◌==◌
ne-nil_of_stop p [] h = cc
ne-nil_of_stop p (c ∷ s) h = refl

trim-stop : (p : ℕ → Bool) (s : Text) → all_pass p s ≡ false → all_pass p (trim p s) ≡ false
unfolding trim
trim-stop p s h =
    let inner = trim_left-stop p s h in
    rw all_pass-reverse (trim_left-stop p (reverse (trim_left p s)) (rw all_pass-reverse inner))

-- A text is trimmed away exactly when every byte of it is in the cut set.
pub trim-pass : (p : ℕ → Bool) (s : Text) → (trim p s == []) ≡ all_pass p s
trim-pass p s = elim (Bool-cases (all_pass p s)) [
  | inl all ↦ rw (trim_of_pass p s all, all) (==_refl [])
  | inr some_stop ↦ rw (ne-nil_of_stop p (trim p s) (trim-stop p s some_stop), some_stop)
]

trim_space_test : trim_space (codes " \tBTC\n ") ≡ codes "BTC"
unfolding trim_space
trim_space_test = refl

-- U+00A0 and U+2003 are white space, and 0xa0 behind 0xc3 is not.
trim_space_wide :
    trim_space (0xc2 ∷ 0xa0 ∷ b'x' ∷ 0xc3 ∷ 0xa0 ∷ 0xe2 ∷ 0x80 ∷ 0x83 ∷ [])
    ≡ b'x' ∷ 0xc3 ∷ 0xa0 ∷ []
unfolding trim_space
trim_space_wide = refl
