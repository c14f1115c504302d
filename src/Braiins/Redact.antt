-- ===== src/Braiins/Redact.antt =====
-- internal/braiins/client.go: what is taken out of the text of a transport error
-- (`redactHeaderValue`, `redactQuerySecrets`, `safeTransportError`).
pub mod Laws
pub mod Hides
use braiins_pool_exporter.Base.{
  ℕ, zero, suc, ◌+◌, ◌-◌, Bool, true, false, not, ◌&&◌, ◌||◌, List, [], ◌∷◌, ◌++◌, map, Option,
  none, some, ltb, leb, eqb, if◌then◌else◌, length, take, drop,
}
use braiins_pool_exporter.Text.{Text, codes, has_prefix, to_lower, lower_byte}

-- A text, or a slice out of range, which panics. `unfinished` is what a loop without fuel returns.
pub data Redaction : Type 0 where
  text : Text → Redaction
  panics unfinished : Redaction

abbrev pub shift : ℕ → Option ℕ → Option ℕ
shift from none = none
shift from (some i) = some (i + from)

-- `strings.Index`
unfoldable pub index : Text → Text → Option ℕ
unfolding has_prefix
index [] pattern = if has_prefix [] pattern then some 0 else none
index (c ∷ s) pattern = if has_prefix (c ∷ s) pattern then some 0 else shift 1 (index s pattern)

-- How many bytes at the front of a text pass a test.
unfoldable pub span : (ℕ → Bool) → Text → ℕ
span test [] = 0
span test (c ∷ s) = let rest = span test s in if test c then suc rest else 0

abbrev is_white : ℕ → Bool
is_white c = eqb c 32 || eqb c 9 || eqb c 13 || eqb c 10

-- The bytes that end the value of a query, those between a header and its value, and those that end
-- the value of a header.
abbrev pub ends_query : ℕ → Bool
ends_query c = eqb c b'&' || is_white c

abbrev pub joins_header : ℕ → Bool
joins_header c = eqb c b':' || eqb c b'=' || eqb c 32 || eqb c 9

abbrev pub ends_header : ℕ → Bool
ends_header c = is_white c || eqb c b',' || eqb c b';'

abbrev pub redacted : Text
redacted = codes "<redacted>"

module _ (fold : Text → Text) where
  -- Where the next occurrence begins, searched in what is behind `from` in lower case.
  unfoldable pub search_from : Text → ℕ → Text → Option ℕ
  unfolding index to_lower
  search_from s from pattern = shift from (index (to_lower fold (drop from s)) pattern)

  -- The new text with the place to search on from, where the occurrence at `idx` is cut out.
  unfoldable pub cut_query : Text → Text → ℕ → Text × ℕ
  unfolding span
  cut_query key s idx =
      let start = idx + length key in
      let end = start + span (λ c. not (ends_query c)) (drop start s) in
      (take start s ++ (redacted ++ drop end s), start + length redacted)

  -- The loop for one key. A slice that begins behind the end of the text panics.
  unfoldable pub query_loop : ℕ → Text → Text → ℕ → Redaction
  unfolding search_from cut_query
  query_loop zero key s from = unfinished
  query_loop (suc fuel) key s from = elim (ltb from (length s)) [
    | false ↦ text s
    | true ↦ elim (search_from s from key) [
      | none ↦ text s
      | some idx ↦ elim (ltb (length s) (idx + length key)) [
        | true ↦ panics
        | false ↦ query_loop fuel key (cut_query key s idx).0 (cut_query key s idx).1
      ]
    ]
  ]

  -- Where the value of a header begins.
  unfoldable pub value_start : Text → Text → ℕ → ℕ
  unfolding span
  value_start name s idx = idx + length name + span joins_header (drop (idx + length name) s)

  abbrev pub mark : Text → Text
  mark name = name ++ b'=' ∷ redacted

  unfoldable pub cut_header : Text → Text → ℕ → Text × ℕ
  unfolding span value_start
  cut_header name s idx =
      let start = value_start name s idx in
      let end = start + span (λ c. not (ends_header c)) (drop start s) in
      (take idx s ++ (mark name ++ drop end s), idx + length (mark name))

  -- A header without a value ends the text and the loop.
  unfoldable pub header_loop : ℕ → Text → Text → ℕ → Redaction
  unfolding search_from cut_header value_start
  header_loop zero name s from = unfinished
  header_loop (suc fuel) name s from = elim (ltb from (length s)) [
    | false ↦ text s
    | true ↦ elim (search_from s from (to_lower fold name)) [
      | none ↦ text s
      | some idx ↦ elim (leb (length s) (value_start name s idx)) [
        | true ↦ elim (ltb (length s) idx) [
          | true ↦ panics
          | false ↦ text (take idx s ++ mark name)
        ]
        | false ↦ header_loop fuel name (cut_header name s idx).0 (cut_header name s idx).1
      ]
    ]
  ]

  -- The loop over the keys or the names, each with the length of its text for fuel.
  unfoldable pub redact_each : (Text → Text → Redaction) → List Text → Redaction → Redaction
  redact_each loop [] r = r
  redact_each loop (key ∷ keys) (text s) = redact_each loop keys (loop key s)
  redact_each loop (key ∷ keys) panics = panics
  redact_each loop (key ∷ keys) unfinished = unfinished

  abbrev pub header_names : List Text
  header_names = codes "Pool-Auth-Token" ∷ codes "X-Pool-Auth-Token" ∷ codes "Authorization" ∷ []

  abbrev pub query_keys : List Text
  query_keys = codes "token=" ∷ codes "auth=" ∷ codes "api_key=" ∷ codes "apikey=" ∷ []

  unfoldable pub redact_header_value : Redaction → Redaction
  unfolding redact_each header_loop
  redact_header_value = redact_each (λ name s. header_loop (suc (length s)) name s 0) header_names

  unfoldable pub redact_query_secrets : Redaction → Redaction
  unfolding redact_each query_loop
  redact_query_secrets = redact_each (λ key s. query_loop (suc (length s)) key s 0) query_keys

  unfoldable pub safe_transport_error : Text → Redaction
  unfolding redact_header_value redact_query_secrets
  safe_transport_error s = redact_query_secrets (redact_header_value (text s))
