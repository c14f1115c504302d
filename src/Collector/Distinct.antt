-- ===== src/Collector/Distinct.antt =====
-- Counting each key once: the loop with a set of keys that were seen, and a list of first occurrences.
use braiins_pool_exporter.Base.{
  ◌≡◌, refl, Bool, true, false, not, ◌&&◌, List, [], ◌∷◌, arith, if◌then◌else◌, keep, ◌∙◌, ◌≤◌,
  length, All,
}
use braiins_pool_exporter.Text.{Text, ◌==◌, contains}
use braiins_pool_exporter.Text.Laws.{==_iff}

module _ {ℓ} {A : Type ℓ} where
  keep_cong : (p q : A → Bool) (xs : List A) → ((x : A) → p x ≡ q x) → keep p xs ≡ keep q xs
  keep_cong p q [] h = refl
  keep_cong p q (x ∷ xs) h = ground (arith, h x, keep_cong p q xs h)

  keep-keep : (p q : A → Bool) (xs : List A) → keep p (keep q xs) ≡ keep (λ x. p x && q x) xs
  keep-keep p q [] = refl
  keep-keep p q (x ∷ xs) = ground (arith, keep-keep p q xs)

  keep_all : (p : A → Bool) (xs : List A) → ((x : A) → p x ≡ true) → keep p xs ≡ xs
  keep_all p [] h = refl
  keep_all p (x ∷ xs) h = rw (h x, keep_all p xs h)

  pub length-keep : (p : A → Bool) (xs : List A) → length (keep p xs) ≤ length xs
  length-keep p [] = omega arith
  length-keep p (x ∷ xs) = ground (arith, length-keep p xs)

  pub All-keep {κ} : (P : A → Type κ) (p : A → Bool) (xs : List A) → All P xs → All P (keep p xs)
  All-keep P p [] h = tt
  All-keep P p (x ∷ xs) h = ground (arith, All-keep P p xs h.1)

module _ {ℓ} {A : Type ℓ} (key : A → Text) where
  -- The elements that a loop takes which skips the keys in its set.
  unfoldable pub fresh : List Text → List A → List A
  fresh seen [] = []
  fresh seen (x ∷ xs) =
      let skip = fresh seen xs in
      let take = x ∷ fresh (key x ∷ seen) xs in if contains seen (key x) then skip else take

  -- Each element whose key no earlier element has: those behind it with its key are taken out.
  unfoldable pub distinct : List A → List A
  distinct [] = []
  distinct (x ∷ xs) = x ∷ keep (λ y. not (key y == key x)) (distinct xs)

  abbrev is_new : List Text → A → Bool
  is_new seen y = not (contains seen (key y))

  is_new-skip :
      (seen : List Text) (x : A)
      → contains seen (key x) ≡ true
      → (y : A) → (is_new seen y && not (key y == key x)) ≡ is_new seen y
  is_new-skip seen x h y = ground (arith, ==_iff (key y) (key x))

  is_new-take :
      (seen : List Text) (x y : A)
      → (is_new seen y && not (key y == key x)) ≡ is_new (key x ∷ seen) y
  unfolding contains
  is_new-take seen x y = ground arith

  -- The loop takes the first occurrences of the keys that it has not seen.
  pub fresh-distinct :
      (seen : List Text) (xs : List A) → fresh seen xs ≡ keep (is_new seen) (distinct xs)
  unfolding fresh distinct
  fresh-distinct seen [] = refl
  fresh-distinct seen (x ∷ xs) = ground (
    arith,
    fresh-distinct seen xs,
    fresh-distinct (key x ∷ seen) xs,
    keep-keep (is_new seen) (λ y. not (key y == key x)) (distinct xs),
    keep_cong _ _ (distinct xs) (is_new-take seen x),
    λ (h : contains seen (key x) ≡ true). keep_cong _ _ (distinct xs) (is_new-skip seen x h),
  )

  pub fresh-none :
      (seen : List Text) (xs : List A)
      → ((x : A) → contains seen (key x) ≡ false)
      → fresh seen xs ≡ distinct xs
  fresh-none seen xs h =
      fresh-distinct seen xs ∙ keep_all (is_new seen) (distinct xs) (λ x. rw (h x))

  -- With nothing seen the loop takes every first occurrence.
  pub fresh-nil : (xs : List A) → fresh [] xs ≡ distinct xs
  unfolding contains
  fresh-nil xs = fresh-none [] xs (λ x. refl)

  pub length-fresh : (seen : List Text) (xs : List A) → length (fresh seen xs) ≤ length xs
  unfolding fresh
  length-fresh seen [] = omega arith
  length-fresh seen (x ∷ xs) = ground (arith, length-fresh seen xs, length-fresh (key x ∷ seen) xs)

  pub All-fresh {κ} :
      (P : A → Type κ) (seen : List Text) (xs : List A) → All P xs → All P (fresh seen xs)
  unfolding fresh
  All-fresh P seen [] h = tt
  All-fresh P seen (x ∷ xs) h =
      ground (arith, All-fresh P seen xs h.1, All-fresh P (key x ∷ seen) xs h.1)
