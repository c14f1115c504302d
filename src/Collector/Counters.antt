-- ===== src/Collector/Counters.antt =====
-- The request counters of a collector, by the label `result`. A counter is a float64 that only ++
-- changes; as a number it is exact up to 2^53 requests.
use braiins_pool_exporter.Base.{ℕ, ◌+◌, ◌≡◌, refl, [], ◌∷◌, arith, if◌then◌else◌}
use braiins_pool_exporter.Text.{Text, Map, ◌==◌}
use braiins_pool_exporter.Text.Laws.{==_iff}

abbrev pub Counters : Type 0
Counters = Map ℕ

-- `requests[category]`, which is 0 for a key that is missing.
unfoldable pub count : Counters → Text → ℕ
unfolding ◌==◌
count [] key = 0
count ((k, n) ∷ m) key = if key == k then n else count m key

-- `requests[category]++`
unfoldable pub bump : Counters → Text → Counters
unfolding ◌==◌
bump [] key = (key, 1) ∷ []
bump ((k, n) ∷ m) key = if key == k then (k, n + 1) ∷ m else (k, n) ∷ bump m key

pub count-bump :
    (m : Counters) (key other : Text)
    → count (bump m key) other ≡ (if other == key then count m other + 1 else count m other)
unfolding count bump
count-bump [] key other = ground arith
count-bump ((k, n) ∷ m) key other =
    ground (arith, ==_iff key k, ==_iff other k, ==_iff other key, count-bump m key other)

-- All requests, whatever their result.
unfoldable pub all_requests : Counters → ℕ
all_requests [] = 0
all_requests ((k, n) ∷ m) = n + all_requests m

pub all_requests-bump : (m : Counters) (key : Text) → all_requests (bump m key) ≡ all_requests m + 1
unfolding all_requests bump
all_requests-bump [] key = refl
all_requests-bump ((k, n) ∷ m) key = ground (arith, all_requests-bump m key)
