-- ===== src/Braiins/Redact/Hides.antt =====
-- What stands behind the key of a query, and what is left of it.
use mathlib.Core.List.{map-append}
use braiins_pool_exporter.Base.{
  ℕ, zero, suc, ◌+◌, ◌-◌, ◌≤◌, ◌≡◌, refl, sym, ◌∙◌, ap, inl, inr, true, false, not, ◌&&◌, [], ◌∷◌,
  ◌++◌, append_assoc, some, arith, ltb, length, take, drop, length-append, map, Bool-cases,
}
use braiins_pool_exporter.Text.{Text, has_prefix, is_ascii, lower_byte, to_lower}
use braiins_pool_exporter.Text.Laws.{all_pass}
use braiins_pool_exporter.Braiins.Redact.{
  index, span, search_from, cut_query, query_loop, redacted, ends_query,
}
use braiins_pool_exporter.Braiins.Redact.Laws.{index_bound, shift-some}

has_prefix-append : (s t p : Text) → length p ≤ length s → has_prefix (s ++ t) p ≡ has_prefix s p
unfolding has_prefix
has_prefix-append s t [] h = refl
has_prefix-append [] t (b ∷ p) h = absurd (omega arith)
has_prefix-append (a ∷ s) t (b ∷ p) h = rw (has_prefix-append s t p (omega arith))

-- The first occurrence in a text is the first in a longer one.
index-append :
    (s t p : Text) (i : ℕ) → 1 ≤ length p → index s p ≡ some i → index (s ++ t) p ≡ some i
unfolding index
index-append [] t p i k h = let bound = index_bound [] p i h in absurd (omega arith)
index-append (c ∷ s) t p i k h =
    let same = has_prefix-append (c ∷ s) t p in
    let bound = index_bound (c ∷ s) p i h in
    elim (Bool-cases (has_prefix (c ∷ s) p)) [
      | inl here ↦ rw (same (omega (arith, bound)), here) (rw here at h)
      | inr later ↦
          let (j, found, e) = shift-some 1 i (index s p) (rw later at h) in
          rw (same (omega (arith, bound)), later, index-append s t p j k found) (ap some e)
    ]

is_ascii-append : (s t : Text) → is_ascii (s ++ t) ≡ (is_ascii s && is_ascii t)
unfolding is_ascii
is_ascii-append [] t = refl
is_ascii-append (c ∷ s) t = ground (arith, is_ascii-append s t)

take-length : (s t : Text) → take (length s) (s ++ t) ≡ s
take-length [] t = refl
take-length (c ∷ s) t = rw (take-length s t)

drop-length : (s t : Text) → drop (length s) (s ++ t) ≡ t
drop-length [] t = refl
drop-length (c ∷ s) t = drop-length s t

drop-length_two : (s t u : Text) → drop (length s + length t) (s ++ (t ++ u)) ≡ u
drop-length_two s t u = rw (← length-append s t, ← append_assoc s t u) (drop-length (s ++ t) u)

-- The value ends where the text ends or an ending byte stands.
abbrev pub IsEnded : Text → Type 0
IsEnded [] = Unit
IsEnded (c ∷ s) = ends_query c ≡ true

span-append :
    (value rest : Text)
    → all_pass (λ c. not (ends_query c)) value ≡ true
    → IsEnded rest
    → span (λ c. not (ends_query c)) (value ++ rest) ≡ length value
unfolding span all_pass
span-append [] [] h e = refl
span-append [] (c ∷ s) h e = rw e
span-append (c ∷ s) rest h e = ground (arith, span-append s rest (ground (arith, h)) e)

length-map : (f : ℕ → ℕ) (s : Text) → length (map f s) ≡ length s
length-map f [] = refl
length-map f (c ∷ s) = omega (arith, length-map f s)

module _ (fold : Text → Text) where
  -- In an ASCII text that continues `front`, at whose end the key stands for the first time, the search
  -- finds it there.
  search_from-front :
      (front tail key : Text)
      → 1 ≤ length key
      → is_ascii (front ++ tail) ≡ true
      → index (map lower_byte front) key ≡ some (length front - length key)
      → search_from fold (front ++ tail) 0 key ≡ some (length front - length key)
  unfolding search_from to_lower
  search_from-front front tail key k ascii first =
      rw
        (ascii, map-append, index-append (map lower_byte front) (map lower_byte tail) key _ k first)
        (ap some (omega arith))

  cut_query-front :
      (front value rest key : Text) (idx : ℕ)
      → idx + length key ≡ length front
      → all_pass (λ c. not (ends_query c)) value ≡ true
      → IsEnded rest
      → cut_query fold key (front ++ (value ++ rest)) idx
        ≡ (front ++ (redacted ++ rest), length front + length redacted)
  unfolding cut_query
  cut_query-front front value rest key idx e plain ended =
      rw
        (
          e,
          drop-length front (value ++ rest),
          take-length front (value ++ rest),
          span-append value rest plain ended,
          drop-length_two front value rest,
        )
        refl

  query_loop-front :
      (fuel : ℕ) (key front value rest : Text)
      → 1 ≤ length key
      → index (map lower_byte front) key ≡ some (length front - length key)
      → all_pass (λ c. not (ends_query c)) value ≡ true
      → IsEnded rest
      → is_ascii (front ++ (value ++ rest)) ≡ true
      → query_loop fold (suc fuel) key (front ++ (value ++ rest)) 0
        ≡ query_loop fold fuel key (front ++ (redacted ++ rest)) (length front + length redacted)
  unfolding query_loop
  query_loop-front fuel key front value rest k first plain ended ascii =
      let bound = index_bound (map lower_byte front) key _ first in
      let size = length-append front (value ++ rest) in
      let idx : length front - length key + length key ≡ length front =
        omega (arith, bound, length-map lower_byte front) in
      let inside : ltb 0 (length (front ++ (value ++ rest))) ≡ true =
        ground (arith, size, bound, idx, k) in
      let fits : ltb (length (front ++ (value ++ rest))) (length front - length key + length key)
          ≡ false =
        ground (arith, size, bound, idx) in
      let found = search_from-front front (value ++ rest) key k ascii first in
      rw (query_loop, inside, found, fits)
        (ap (λ (c : Text × ℕ). query_loop fold fuel key c.0 c.1)
          (cut_query-front front value rest key _ idx plain ended))

  -- In an ASCII text the value behind the first key is hidden: the redacted text is the same whatever
  -- bytes stand between the key and the byte that ends the value.
  pub query_loop-hides :
      (fuel : ℕ) (key front value other rest : Text)
      → 1 ≤ length key
      → index (map lower_byte front) key ≡ some (length front - length key)
      → all_pass (λ c. not (ends_query c)) value ≡ true
      → all_pass (λ c. not (ends_query c)) other ≡ true
      → IsEnded rest
      → is_ascii (front ++ (value ++ rest)) ≡ true
      → is_ascii (front ++ (other ++ rest)) ≡ true
      → query_loop fold fuel key (front ++ (value ++ rest)) 0
        ≡ query_loop fold fuel key (front ++ (other ++ rest)) 0
  unfolding query_loop
  query_loop-hides zero key front value other rest k first pv po ended av ao = refl
  query_loop-hides (suc fuel) key front value other rest k first pv po ended av ao =
      query_loop-front fuel key front value rest k first pv ended av
      ∙ sym (query_loop-front fuel key front other rest k first po ended ao)
