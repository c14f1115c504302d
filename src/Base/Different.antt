-- ===== src/Base/Different.antt =====
-- Lists whose elements are pairwise different.
use Prim.Native.Nat.{ℕ, ◌≤◌, ◌<◌}
use mathlib.Core.Path.{◌≡◌, ap}
use mathlib.Core.Logic.{◌≢◌, inl, inr}
use mathlib.Core.Bool.{Bool}
use mathlib.Core.List.{List, [], ◌∷◌, ◌++◌, map}
use native.Mathlib.Omega.{arith}
use braiins_pool_exporter.Base.Tests.{Bool-cases}
use braiins_pool_exporter.Base.Lists.{All, All-append, keep}

module _ {A : Type 0} where
  abbrev pub Different : List A → Type 0
  Different [] = Unit
  Different (x ∷ xs) = All (λ y. x ≢ y) xs × Different xs

  pub All-mono : (P Q : A → Type 0) → ((a : A) → P a → Q a) → (xs : List A) → All P xs → All Q xs
  All-mono P Q f [] h = tt
  All-mono P Q f (x ∷ xs) h = (f x h.0, All-mono P Q f xs h.1)

  -- Two lists that a predicate tells apart.
  pub Different-append :
      (P : A → Type 0) (xs ys : List A)
      → All P xs
      → All (λ y. P y → ⊥) ys
      → Different xs
      → Different ys
      → Different (xs ++ ys)
  Different-append P [] ys hx hy dx dy = dy
  Different-append P (x ∷ xs) ys hx hy dx dy = (
    All-append (λ y. x ≢ y) xs ys dx.0
        (All-mono (λ y. P y → ⊥) (λ y. x ≢ y) (λ y no e. no (rw (← e) hx.0)) ys hy),
    Different-append P xs ys hx.1 hy dx.1 dy,
  )

  pub All-of_keep : (P : A → Type 0) (p : A → Bool) (xs : List A) → All P xs → All P (keep p xs)
  All-of_keep P p [] h = tt
  All-of_keep P p (x ∷ xs) h = elim (Bool-cases (p x)) [
    | inl kept ↦ rw kept (h.0, All-of_keep P p xs h.1)
    | inr out ↦ rw out (All-of_keep P p xs h.1)
  ]

  pub Different-keep : (p : A → Bool) (xs : List A) → Different xs → Different (keep p xs)
  Different-keep p [] h = tt
  Different-keep p (x ∷ xs) h = elim (Bool-cases (p x)) [
    | inl kept ↦ rw kept (All-of_keep (λ y. x ≢ y) p xs h.0, Different-keep p xs h.1)
    | inr out ↦ rw out (Different-keep p xs h.1)
  ]

module _ {A B : Type 0} (f : A → B) where
  pub All-map : (P : B → Type 0) (xs : List A) → All (λ x. P (f x)) xs → All P (map f xs)
  All-map P [] h = tt
  All-map P (x ∷ xs) h = (h.0, All-map P xs h.1)

  pub Different-map :
      ((x y : A) → f x ≡ f y → x ≡ y) → (xs : List A) → Different xs → Different (map f xs)
  Different-map inj [] h = tt
  Different-map inj (x ∷ xs) h = (
    All-map (λ b. f x ≢ b) xs
        (All-mono (λ y. x ≢ y) (λ y. f x ≢ f y) (λ y no e. no (inj x y e)) xs h.0),
    Different-map inj xs h.1,
  )

  -- What is different behind a function is different before it.
  pub All-image : (x : A) (xs : List A) → All (λ b. f x ≢ b) (map f xs) → All (λ y. x ≢ y) xs
  All-image x [] h = tt
  All-image x (y ∷ ys) h = ((λ e. h.0 (ap f e)), All-image x ys h.1)

  pub Different-image : (xs : List A) → Different (map f xs) → Different xs
  Different-image [] h = tt
  Different-image (x ∷ xs) h = (All-image x xs h.0, Different-image xs h.1)

-- Lists that lie in a range of ranks, and the ranks that join them.
module _ {A : Type 0} (rank : A → ℕ) where
  pub record Block (low high : ℕ) (xs : List A) : Type 0 where
    pub ranks : All (λ x. (low ≤ rank x) × (rank x < high)) xs
    pub different : Different xs

  pub Block-append :
      (low middle high : ℕ) (xs ys : List A)
      → Block low middle xs
      → Block middle high ys
      → low ≤ middle
      → middle ≤ high
      → Block low high (xs ++ ys)
  Block-append low middle high xs ys bx by l h = record {
    ranks =
        All-append (λ x. (low ≤ rank x) × (rank x < high)) xs ys
          (All-mono _ _ (λ x r. omega arith) xs bx.ranks)
          (All-mono _ _ (λ x r. omega arith) ys by.ranks);
    different =
        Different-append (λ x. rank x < middle) xs ys
          (All-mono _ _ (λ x r. omega arith) xs bx.ranks)
          (All-mono _ _ (λ x r less. omega arith) ys by.ranks) bx.different by.different;
  }
