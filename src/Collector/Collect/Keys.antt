-- ===== src/Collector/Collect/Keys.antt =====
-- The keys of the counters, as they are counted and as they are sorted.
use braiins_pool_exporter.Base.{
  ◌≡◌, sym, ◌≢◌, Bool, true, false, not, ◌&&◌, List, [], ◌∷◌, map, arith, All, Bool-cases, inl, inr,
}
use braiins_pool_exporter.Base.Different.{Different}
use braiins_pool_exporter.Text.{Text, Map, ◌==◌, contains}
use braiins_pool_exporter.Text.Laws.{==_iff, ==_refl}
use braiins_pool_exporter.Collector.Counters.{Counters, bump}
use braiins_pool_exporter.Collector.Workers.Labels.{text_le, insert_worker, sort_workers}
use braiins_pool_exporter.Collector.Collect.{sorted_counter_keys}

module _ {V : Type 0} where
  abbrev pub keys_of : Map V → List Text
  keys_of m = map (λ (entry : Text × V). entry.0) m

  All-insert :
      (P : Text → Type 0) (e : Text × V) (m : Map V)
      → P e.0
      → All P (keys_of m)
      → All P (keys_of (insert_worker e m))
  unfolding insert_worker
  All-insert P e [] pe pm = (pe, tt)
  All-insert P e (d ∷ m) pe pm = elim (Bool-cases (text_le e.0 d.0)) [
    | inl before ↦ rw before (pe, pm)
    | inr behind ↦ rw behind (pm.0, All-insert P e m pe pm.1)
  ]

  Different-insert :
      (e : Text × V) (m : Map V)
      → All (λ k. e.0 ≢ k) (keys_of m)
      → Different (keys_of m)
      → Different (keys_of (insert_worker e m))
  unfolding insert_worker
  Different-insert e [] new d = (tt, tt)
  Different-insert e (c ∷ m) new d = elim (Bool-cases (text_le e.0 c.0)) [
    | inl before ↦ rw before (new, d)
    | inr behind ↦ rw behind (
      All-insert (λ k. c.0 ≢ k) e m (λ same. new.0 (sym same)) d.0,
      Different-insert e m new.1 d.1,
    )
  ]

  All-sort : (P : Text → Type 0) (m : Map V) → All P (keys_of m) → All P (keys_of (sort_workers m))
  unfolding sort_workers
  All-sort P [] h = tt
  All-sort P (e ∷ m) h = All-insert P e (sort_workers m) h.0 (All-sort P m h.1)

  pub Different-sort : (m : Map V) → Different (keys_of m) → Different (keys_of (sort_workers m))
  unfolding sort_workers
  Different-sort [] h = tt
  Different-sort (e ∷ m) h =
      Different-insert e (sort_workers m) (All-sort (λ k. e.0 ≢ k) m h.0) (Different-sort m h.1)

All-bump :
    (P : Text → Type 0) (m : Counters) (key : Text)
    → P key
    → All P (keys_of m)
    → All P (keys_of (bump m key))
unfolding bump
All-bump P [] key pk h = (pk, tt)
All-bump P ((k, n) ∷ m) key pk h = elim (Bool-cases (key == k)) [
  | inl same ↦ rw same h
  | inr other ↦ rw other (h.0, All-bump P m key pk h.1)
]

pub Different-bump :
    (m : Counters) (key : Text) → Different (keys_of m) → Different (keys_of (bump m key))
unfolding bump
Different-bump [] key h = (tt, tt)
Different-bump ((k, n) ∷ m) key h = elim (Bool-cases (key == k)) [
  | inl same ↦ rw same h
  | inr other ↦ rw other (
    All-bump (λ j. k ≢ j) m key (λ e. ground (arith, other, ==_refl key, e)) h.0,
    Different-bump m key h.1,
  )
]

pub Different-sorted : (m : Counters) → Different (keys_of m) → Different (sorted_counter_keys m)
unfolding sorted_counter_keys
Different-sorted m h = Different-sort m h

-- A test for a list that is written out.
unfoldable pub all_different : List Text → Bool
unfolding contains
all_different [] = true
all_different (t ∷ ts) = not (contains ts t) && all_different ts

pub contains-none : (t : Text) (ts : List Text) → contains ts t ≡ false → All (λ u. t ≢ u) ts
unfolding contains
contains-none t [] h = tt
contains-none t (u ∷ us) h =
    ((λ e. ground (arith, ==_iff t u, e, h)), contains-none t us (ground (arith, h)))

pub all_different-Different : (ts : List Text) → all_different ts ≡ true → Different ts
unfolding all_different
all_different-Different [] h = tt
all_different-Different (t ∷ ts) h =
    (contains-none t ts (ground (arith, h)), all_different-Different ts (ground (arith, h)))
