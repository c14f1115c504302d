-- ===== src/Collector/Decimals/Order.antt =====
-- The loop over the windows of a response, whose order Go leaves open.
use braiins_pool_exporter.Base.{
  ◌≡◌, refl, sym, ◌∙◌, ◌≢◌, inl, inr, String, [], ◌∷◌, Option, Bool-cases, Option-cases,
}
use braiins_pool_exporter.Base.Float.{Float64}
use braiins_pool_exporter.Base.Result.{Result, ok, err, ◌>>=◌}
use braiins_pool_exporter.Text.{Text, Map, ◌==◌, lookup}
use braiins_pool_exporter.Text.Laws.{==_iff}
use braiins_pool_exporter.Braiins.Types.{Decimal}
use braiins_pool_exporter.Collector.Decimals.{decimal_to_float, parse_windows}
use braiins_pool_exporter.Collector.Workers.Order.{Swap, here, there}

-- One listing of a map behind another, by swaps.
pub data Reordered (m : Map Decimal) : Map Decimal → Type 0 where
  same : Reordered m m
  swapped : {n p : Map Decimal} → Reordered m n → Swap n p → Reordered m p

module _ (fl : Float64) where
  open fl use {F}

  -- What a collector looks up in the windows that were read.
  unfoldable pub found : Text → Result String (Map F) → Result String (Option F)
  unfolding lookup
  found key (ok windows) = ok (lookup windows key)
  found key (err message) = err message

  -- A window in front of the others.
  abbrev and_window : Text → F → Result String (Map F) → Result String (Map F)
  and_window window parsed others = others >>= λ windows. ok ((window, parsed) ∷ windows)

  found-and_window :
      (key window : Text) (parsed : F) (xs ys : Result String (Map F))
      → found key xs ≡ found key ys
      → found key (and_window window parsed xs) ≡ found key (and_window window parsed ys)
  unfolding found lookup
  found-and_window key window parsed (ok xs) (ok ys) h = elim (Bool-cases (key == window)) [
    | inl hit ↦ rw hit refl
    | inr miss ↦ rw miss h
  ]
  found-and_window key window parsed (ok xs) (err m) h = cc
  found-and_window key window parsed (err m) (ok ys) h = cc
  found-and_window key window parsed (err m) (err m') h = h

  found-two :
      (key w v : Text) (x y : F) (others : Result String (Map F))
      → w ≢ v
      → found key (and_window w x (and_window v y others))
        ≡ found key (and_window v y (and_window w x others))
  unfolding found lookup
  found-two key w v x y (err m) h = refl
  found-two key w v x y (ok ws) h = elim (Bool-cases (key == w)) [
    | inl hit ↦ elim (Bool-cases (key == v)) [
      | inl both ↦ absurd (h (sym ((==_iff key w).0 hit) ∙ (==_iff key v).0 both))
      | inr miss ↦ rw (hit, miss) refl
    ]
    | inr miss ↦ rw miss refl
  ]

  found-Swap :
      (message : String) {m n : Map Decimal} (key : Text)
      → Swap m n
      → found key (parse_windows fl message m) ≡ found key (parse_windows fl message n)
  unfolding parse_windows
  found-Swap message key (here {e} {d} {m} h) = elim (Bool-cases (e.1 == [])) [
    | inl eb ↦ elim (Bool-cases (d.1 == [])) [
      | inl db ↦ rw (eb, db) refl
      | inr df ↦ rw (eb, df) refl
    ]
    | inr ef ↦ elim (Bool-cases (d.1 == [])) [
      | inl db ↦ rw (ef, db) refl
      | inr df ↦ elim (Option-cases (decimal_to_float fl e.1)) [
        | inl eb ↦ elim (Option-cases (decimal_to_float fl d.1)) [
          | inl db ↦ rw (ef, df, eb, db) refl
          | inr (y, dg) ↦ rw (ef, df, eb, dg) refl
        ]
        | inr (x, eg) ↦ elim (Option-cases (decimal_to_float fl d.1)) [
          | inl db ↦ rw (ef, df, eg, db) refl
          | inr (y, dg) ↦
              rw (ef, df, eg, dg) (found-two key e.0 d.0 x y (parse_windows fl message m) h)
        ]
      ]
    ]
  ]
  found-Swap message key (there {m} {n} e s) = elim (Bool-cases (e.1 == [])) [
    | inl blank ↦ rw blank (found-Swap message key s)
    | inr full ↦ elim (Option-cases (decimal_to_float fl e.1)) [
      | inl bad ↦ rw (full, bad) refl
      | inr (x, good) ↦
          rw (full, good)
            (found-and_window key e.0 x (parse_windows fl message m) (parse_windows fl message n)
              (found-Swap message key s))
    ]
  ]

  -- The windows that are read out of a map, or the error, do not hang on the order in which it is
  -- visited: behind any listing of its entries each window has the same number, or is missing.
  pub parse_windows_unordered :
      (message : String) (m n : Map Decimal) (key : Text)
      → Reordered m n
      → found key (parse_windows fl message m) ≡ found key (parse_windows fl message n)
  parse_windows_unordered message m n key same = refl
  parse_windows_unordered message m n key (swapped r s) =
      parse_windows_unordered message m _ key r ∙ found-Swap message key s
