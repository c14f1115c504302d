-- ===== src/Braiins/Redact/Laws.antt =====
-- How far the loops of the redaction get in one round.
use braiins_pool_exporter.Base.{
  ℕ, zero, suc, ◌+◌, ◌≤◌, ◌<◌, ◌≡◌, refl, ◌≢◌, inl, inr, Bool, true, false, not, List, [], ◌∷◌,
  ◌++◌, Option, none, some, arith, ltb, leb, length, take, drop, length-append, length-take,
  length-drop, Bool-cases, Option-cases, le_of_ltb-false, ltb→lt, All,
}
use braiins_pool_exporter.Text.{Text, codes, has_prefix, to_lower}
use braiins_pool_exporter.Braiins.Redact.{
  Redaction, shift, text, panics, unfinished, index, span, search_from, cut_query, query_loop,
  value_start, cut_header, mark, redacted, header_loop, redact_each, redact_header_value,
  redact_query_secrets, safe_transport_error, query_keys, header_names, ends_query, ends_header,
}

pub length-span : (test : ℕ → Bool) (s : Text) → span test s ≤ length s
unfolding span
length-span test [] = omega arith
length-span test (c ∷ s) = ground (arith, length-span test s)

pub has_prefix-length : (s p : Text) → has_prefix s p ≡ true → length p ≤ length s
unfolding has_prefix
has_prefix-length s [] h = omega arith
has_prefix-length [] (b ∷ p) h = cc
has_prefix-length (a ∷ s) (b ∷ p) h = ground (arith, has_prefix-length s p)

pub shift-some :
    (from idx : ℕ) (o : Option ℕ)
    → shift from o ≡ some idx
    → (i : ℕ) × (o ≡ some i) × (i + from ≡ idx)
shift-some from idx none h = cc
shift-some from idx (some i) h = (i, refl, cc)

pub index_bound :
    (s pattern : Text) (i : ℕ) → index s pattern ≡ some i → i + length pattern ≤ length s
unfolding index
index_bound [] pattern i h = elim (Bool-cases (has_prefix [] pattern)) [
  | inl here ↦
      let e : some 0 ≡ some i = rw here at h in
      let z : 0 ≡ i = cc in omega (arith, z, has_prefix-length [] pattern here)
  | inr none_here ↦ let e : none ≡ some i = rw none_here at h in cc
]
index_bound (c ∷ s) pattern i h = elim (Bool-cases (has_prefix (c ∷ s) pattern)) [
  | inl here ↦
      let e : some 0 ≡ some i = rw here at h in
      let z : 0 ≡ i = cc in omega (arith, z, has_prefix-length (c ∷ s) pattern here)
  | inr later ↦
      let (j, found, e) = shift-some 1 i (index s pattern) (rw later at h) in
      omega (arith, e, index_bound s pattern j found)
]

lt_of_leb-false : (a b : ℕ) → leb a b ≡ false → b < a
lt_of_leb-false a b h = ground arith

module _ (fold : Text → Text) where
  search_from-le :
      (s : Text) (from : ℕ) (pattern : Text) (idx : ℕ)
      → search_from fold s from pattern ≡ some idx
      → from ≤ idx
  unfolding search_from
  search_from-le s from pattern idx h =
      let (i, found, e) = shift-some from idx _ h in omega (arith, e)

  -- What is left to search shrinks.
  cut_query_shrinks :
      (key s : Text) (idx : ℕ)
      → idx + length key ≤ length s
      → length (cut_query fold key s idx).0 + (idx + length key)
        ≤ length s + (cut_query fold key s idx).1
  unfolding cut_query
  cut_query_shrinks key s idx h =
      let start = idx + length key in
      let tail = drop (start + span (λ c. not (ends_query c)) (drop start s)) s in
      let text' : length (cut_query fold key s idx).0
          ≡ length (take start s ++ (redacted ++ tail)) =
        refl in
      let from' : (cut_query fold key s idx).1 ≡ start + 10 = refl in
      omega (
        arith,
        text',
        from',
        length-append (take start s) (redacted ++ tail),
        length-take start s h,
        length-drop (start + span (λ c. not (ends_query c)) (drop start s)) s,
      )

  query_loop_ends :
      (fuel : ℕ) (key s : Text) (from : ℕ)
      → 1 ≤ length key
      → 1 ≤ fuel
      → length s < fuel + from
      → query_loop fold fuel key s from ≢ unfinished
  unfolding query_loop
  query_loop_ends zero key s from k f h = absurd (omega arith)
  query_loop_ends (suc fuel) key s from k f h = elim (Bool-cases (ltb from (length s))) [
    | inr past ↦ rw (query_loop, past) (λ e. cc)
    | inl inside ↦ elim (Option-cases (search_from fold s from key)) [
      | inl missing ↦ rw (query_loop, inside, missing) (λ e. cc)
      | inr (idx, found) ↦ elim (Bool-cases (ltb (length s) (idx + length key))) [
        | inl out ↦ rw (query_loop, inside, found, out) (λ e. cc)
        | inr fits ↦
            rw (query_loop, inside, found, fits)
              (query_loop_ends fuel key (cut_query fold key s idx).0 (cut_query fold key s idx).1 k
                (ground (arith, inside))
                (omega (
                  arith,
                  ltb→lt from (length s) inside,
                  cut_query_shrinks key s idx (le_of_ltb-false _ _ fits),
                  search_from-le s from key idx found,
                )))
      ]
    ]
  ]

  cut_header_shrinks :
      (name s : Text) (idx : ℕ)
      → value_start fold name s idx < length s
      → length (cut_header fold name s idx).0 + value_start fold name s idx
        ≤ length s + (cut_header fold name s idx).1
  unfolding cut_header
  cut_header_shrinks name s idx h =
      let start = value_start fold name s idx in
      let end = start + span (λ c. not (ends_header c)) (drop start s) in
      let inside : idx ≤ length s = unfold value_start in omega arith in
      let text' : length (cut_header fold name s idx).0
          ≡ length (take idx s ++ (mark fold name ++ drop end s)) =
        refl in
      let from' : (cut_header fold name s idx).1 ≡ idx + length (mark fold name) = refl in
      omega (
        arith,
        text',
        from',
        length-append (take idx s) (mark fold name ++ drop end s),
        length-append (mark fold name) (drop end s),
        length-take idx s inside,
        length-drop end s,
      )

  value_start-le : (name s : Text) (idx : ℕ) → idx + length name ≤ value_start fold name s idx
  unfolding value_start
  value_start-le name s idx = omega arith

  header_loop_ends :
      (fuel : ℕ) (name s : Text) (from : ℕ)
      → 1 ≤ length name
      → 1 ≤ fuel
      → length s < fuel + from
      → header_loop fold fuel name s from ≢ unfinished
  unfolding header_loop
  header_loop_ends zero name s from k f h = absurd (omega arith)
  header_loop_ends (suc fuel) name s from k f h = elim (Bool-cases (ltb from (length s))) [
    | inr past ↦ rw (header_loop, past) (λ e. cc)
    | inl inside ↦ elim (Option-cases (search_from fold s from (to_lower fold name))) [
      | inl missing ↦ rw (header_loop, inside, missing) (λ e. cc)
      | inr (idx, found) ↦ elim (Bool-cases (leb (length s) (value_start fold name s idx))) [
        | inl last ↦ elim (Bool-cases (ltb (length s) idx)) [
          | inl out ↦ rw (header_loop, inside, found, last, out) (λ e. cc)
          | inr fits ↦ rw (header_loop, inside, found, last, fits) (λ e. cc)
        ]
        | inr more ↦
            rw (header_loop, inside, found, more)
              (header_loop_ends fuel name (cut_header fold name s idx).0
                (cut_header fold name s idx).1 k (ground (arith, inside))
                (omega (
                  arith,
                  ltb→lt from (length s) inside,
                  cut_header_shrinks name s idx (lt_of_leb-false _ _ more),
                  value_start-le name s idx,
                  search_from-le s from (to_lower fold name) idx found,
                )))
      ]
    ]
  ]

  redact_each_ends :
      (loop : Text → Text → Redaction) (patterns : List Text) (r : Redaction)
      → All (λ p. (s : Text) → loop p s ≢ unfinished) patterns
      → r ≢ unfinished
      → redact_each fold loop patterns r ≢ unfinished
  unfolding redact_each
  redact_each_ends loop [] r h n = n
  redact_each_ends loop (p ∷ ps) (text s) h n = redact_each_ends loop ps (loop p s) h.1 (h.0 s)
  redact_each_ends loop (p ∷ ps) panics h n = n
  redact_each_ends loop (p ∷ ps) unfinished h n = n

  -- The redaction of any text ends: neither loop needs more rounds than its text has bytes, whatever
  -- lower case is made of, and also where the text grows by the marks.
  pub safe_transport_error_ends : (s : Text) → safe_transport_error fold s ≢ unfinished
  unfolding safe_transport_error redact_header_value redact_query_secrets
  safe_transport_error_ends s =
      let query = λ (key : Text) (k : 1 ≤ length key) (t : Text).
        query_loop_ends (suc (length t)) key t 0 k (omega arith) (omega arith) in
      let header = λ (name : Text) (k : 1 ≤ length name) (t : Text).
        header_loop_ends (suc (length t)) name t 0 k (omega arith) (omega arith) in
      redact_each_ends (λ key t. query_loop fold (suc (length t)) key t 0) (query_keys fold) _
        (
          query (codes "token=") (omega arith),
          (
            query (codes "auth=") (omega arith),
            (query (codes "api_key=") (omega arith), (query (codes "apikey=") (omega arith), tt)),
          ),
        )
        (redact_each_ends (λ name t. header_loop fold (suc (length t)) name t 0) (header_names fold)
          (text s)
          (
            header (codes "Pool-Auth-Token") (omega arith),
            (
              header (codes "X-Pool-Auth-Token") (omega arith),
              (header (codes "Authorization") (omega arith), tt),
            ),
          )
          (λ e. cc))
