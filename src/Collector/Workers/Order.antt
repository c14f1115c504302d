-- ===== src/Collector/Workers/Order.antt =====
-- A Go map has no order: what the collectors read out of one does not hang on how it is listed.
pub mod Tests
use native.Mathlib.Nat.{ℕ_set}
use mathlib.Core.Quot
use mathlib.Core.Quot.{Quot, Quot-set}
use braiins_pool_exporter.Base.{
  ℕ, suc, ◌+◌, ◌≡◌, refl, sym, ◌∙◌, ap, ◌≢◌, ◌⊎◌, inl, inr, Bool, true, false, ◌&&◌, ◌||◌, List, [],
  ◌∷◌, arith, eqb, ltb, length, Bool-cases, if◌then◌else◌,
}
use braiins_pool_exporter.Text.{Text, Map, ◌==◌, lookup, to_lower}
use braiins_pool_exporter.Text.Laws.{==_iff, ==_refl}
use braiins_pool_exporter.Base.Float.{Float64}
use braiins_pool_exporter.Base.Int.{ℤ}
use braiins_pool_exporter.Base.Time.{Time}
use braiins_pool_exporter.Braiins.Types.{CoinEnvelope, Worker, WorkersResponse}
use braiins_pool_exporter.Collector.Workers.{build_worker_snapshot}
use braiins_pool_exporter.Collector.Workers.Labels.{text_le, insert_worker, sort_workers}

text_le_total : (s t : Text) → text_le s t ≡ false → text_le t s ≡ true
unfolding text_le
text_le_total [] t h = cc
text_le_total (a ∷ s) [] h = refl
text_le_total (a ∷ s) (b ∷ t) h = ground (arith, text_le_total s t)

text_le_antisymm : (s t : Text) → text_le s t ≡ true → text_le t s ≡ true → s ≡ t
unfolding text_le
text_le_antisymm [] [] h k = refl
text_le_antisymm [] (b ∷ t) h k = cc
text_le_antisymm (a ∷ s) [] h k = cc
text_le_antisymm (a ∷ s) (b ∷ t) h k =
    let same : a ≡ b = ground (arith, h, k) in
    let rest : s ≡ t = text_le_antisymm s t (ground (arith, h, k)) (ground (arith, h, k)) in cc

text_le_trans : (s t u : Text) → text_le s t ≡ true → text_le t u ≡ true → text_le s u ≡ true
unfolding text_le
text_le_trans [] t u h k = refl
text_le_trans (a ∷ s) [] u h k = cc
text_le_trans (a ∷ s) (b ∷ t) [] h k = cc
text_le_trans (a ∷ s) (b ∷ t) (c ∷ u) h k = ground (arith, text_le_trans s t u, h, k)

swapped : (s t : Text) → s ≢ t → text_le s t ≡ true → text_le t s ≡ false
swapped s t h before = elim (Bool-cases (text_le t s)) [
  | inl behind ↦ absurd (h (text_le_antisymm s t before behind))
  | inr apart ↦ apart
]

-- What lies between two others in the order, of which the last is not behind the first.
between : (s t u : Text) → s ≢ t → text_le s u ≡ true → text_le t u ≡ false → text_le t s ≡ false
between s t u h su tu = swapped s t h (text_le_trans s u t su (text_le_total t u tu))

module _ {V : Type 0} where
  -- Two entries of different keys that stand side by side change places.
  pub data Swap : Map V → Map V → Type 0 where
    here : {e d : Text × V} {m : Map V} → e.0 ≢ d.0 → Swap (e ∷ d ∷ m) (d ∷ e ∷ m)
    there : {m n : Map V} (e : Text × V) → Swap m n → Swap (e ∷ m) (e ∷ n)

  -- Two entries of different keys may be inserted in either order.
  insert_comm :
      (e d : Text × V) (m : Map V)
      → e.0 ≢ d.0
      → insert_worker e (insert_worker d m) ≡ insert_worker d (insert_worker e m)
  unfolding insert_worker
  insert_comm e d [] h = elim (Bool-cases (text_le e.0 d.0)) [
    | inl before ↦ rw (before, swapped e.0 d.0 h before) refl
    | inr behind ↦ rw (behind, text_le_total e.0 d.0 behind) refl
  ]
  insert_comm e d (c ∷ m) h = elim (Bool-cases (text_le e.0 c.0)) [
    | inl ec ↦ elim (Bool-cases (text_le d.0 c.0)) [
      | inl dc ↦ elim (Bool-cases (text_le e.0 d.0)) [
        | inl before ↦ rw (ec, dc, insert_worker, before, swapped e.0 d.0 h before) refl
        | inr behind ↦ rw (ec, dc, insert_worker, behind, text_le_total e.0 d.0 behind, ec) refl
      ]
      | inr cd ↦ rw (ec, cd, insert_worker, between e.0 d.0 c.0 h ec cd, ec) refl
    ]
    | inr ce ↦ elim (Bool-cases (text_le d.0 c.0)) [
      | inl dc ↦
          rw (ce, dc, insert_worker, between d.0 e.0 c.0 (λ same. h (sym same)) dc ce, ce) refl
      | inr cd ↦ rw (ce, cd, insert_worker, ce) (ap (λ n. c ∷ n) (insert_comm e d m h))
    ]
  ]

  sort-Swap : {m n : Map V} → Swap m n → sort_workers m ≡ sort_workers n
  unfolding sort_workers
  sort-Swap (here {e} {d} {m} h) = insert_comm e d (sort_workers m) h
  sort-Swap (there e s) = ap (insert_worker e) (sort-Swap s)

  length-Swap : {m n : Map V} → Swap m n → length m ≡ length n
  length-Swap (here h) = refl
  length-Swap (there e s) = ap suc (length-Swap s)

-- A Go map: a listing of its entries, whatever the order.
abbrev pub GoMap : Type 0 → Type 0
GoMap V = Quot (Swap {V = V})

-- A listing as a map.
abbrev pub map_of : {V : Type 0} → Map V → GoMap V
map_of m = Quot.mk m

workers-set : IsSet (Map Worker)
workers-set = hlevel

-- The workers of a map by their names, and how many there are.
pub sorted_workers : GoMap Worker → Map Worker
sorted_workers = Quot.lift workers-set sort_workers (λ m n s. sort-Swap s)

pub size : {V : Type 0} → GoMap V → ℕ
size = Quot.lift ℕ_set length (λ m n s. length-Swap s)

module _ (fl : Float64) (fold : Text → Text) where
  -- The snapshot hangs on the map of the workers and not on the order that it is listed in: two listings
  -- of one map build one snapshot, or fail with one error.
  pub build_worker_snapshot_unordered :
      (coin key : Text) (now : Time) (max_workers : ℤ) (rest : CoinEnvelope WorkersResponse)
      (m n : Map Worker)
      → map_of m ≡ map_of n
      → build_worker_snapshot fl fold coin now max_workers ((key, record { workers = m }) ∷ rest)
        ≡ build_worker_snapshot fl fold coin now max_workers ((key, record { workers = n }) ∷ rest)
  unfolding build_worker_snapshot lookup sorted_workers size
  build_worker_snapshot_unordered coin key now max_workers rest m n same =
      let names : sort_workers m ≡ sort_workers n = ap sorted_workers same in
      let sizes : length m ≡ length n = ap size same in
      elim (Bool-cases (to_lower fold coin == key)) [
        | inl found ↦ rw (found, names, sizes) refl
        | inr other ↦ rw other refl
      ]
