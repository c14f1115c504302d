-- ===== src/Collector/Cache/Trace.antt =====
-- The cache against the polls that made it: an abstract view that knows nothing of counters or of the
-- order of assignments.
use braiins_pool_exporter.Base.{ℕ, ◌+◌, ◌≡◌, refl, List, [], ◌∷◌, Option, none, some, if◌then◌else◌}
use braiins_pool_exporter.Base.Different.{Different}
use braiins_pool_exporter.Base.Result.{Result, ok, err}
use braiins_pool_exporter.Base.Time.{Time}
use braiins_pool_exporter.Text.{Text, codes, ◌==◌}
use braiins_pool_exporter.Braiins.Errors.{ClientError, categorize_error}
use braiins_pool_exporter.Collector.Counters.{count, count-bump}
use braiins_pool_exporter.Collector.Cache.{Cache, empty_cache, record_request, accept, store, poll}
use braiins_pool_exporter.Collector.Collect.Keys.{keys_of, Different-bump}

module _ {R B S : Type 0} (build : Time → R → Result B S) (invalid_category : B → Text)
    (collected_at : S → Time) where
  -- A poll: what the clock shows behind the request, and what the request returned.
  abbrev pub Event : Type 0
  Event = Time × Result ClientError R

  -- The cache behind some polls, the last of them first.
  unfoldable pub cache_after : List Event → Cache S
  unfolding poll
  cache_after [] = empty_cache
  cache_after ((now, fetched) ∷ earlier) =
      (poll (build now) invalid_category collected_at (cache_after earlier) fetched).0

  -- What one poll yields: a snapshot, or the category of its failure.
  abbrev pub outcome_of : Result B S → Result Text S
  outcome_of (ok s) = ok s
  outcome_of (err b) = err (invalid_category b)

  abbrev pub outcome : Event → Result Text S
  outcome (now, err e) = err (categorize_error e)
  outcome (now, ok r) = outcome_of (build now r)

  abbrev pub or_before : Option S → Result Text S → Option S
  or_before before (ok s) = some s
  or_before before (err category) = before

  abbrev category : Result Text S → Text
  category (ok s) = codes "success"
  category (err name) = name

  abbrev complaint : Result Text S → Text
  complaint (ok s) = []
  complaint (err name) = name

  -- The snapshot of the last poll that succeeded.
  abbrev pub latest : List Event → Option S
  latest [] = none
  latest (e ∷ earlier) = or_before (latest earlier) (outcome e)

  -- How many polls ended in a category.
  abbrev pub tally : List Event → Text → ℕ
  tally [] key = 0
  tally (e ∷ earlier) key =
      if key == category (outcome e) then tally earlier key + 1 else tally earlier key

  -- The failure of the last poll.
  abbrev pub last_failure : List Event → Text
  last_failure [] = []
  last_failure (e ∷ earlier) = complaint (outcome e)

  abbrev time_of : Option S → Option Time
  time_of none = none
  time_of (some s) = some (collected_at s)

  pub record Refines (c : Cache S) (trace : List Event) : Type 0 where
    pub snapshot : c.last_good ≡ latest trace
    pub time : c.last_success ≡ time_of (latest trace)
    pub failure : c.last_error ≡ last_failure trace
    pub counts : (key : Text) → count c.requests key ≡ tally trace key
    pub keys : Different (keys_of c.requests)

  store-Refines :
      (c : Cache S) (now : Time) (r : R) (built : Result B S) (earlier : List Event)
      → build now r ≡ built
      → Refines c earlier
      → Refines (store (build now) invalid_category collected_at c built).0 ((now, ok r) ∷ earlier)
  unfolding store record_request accept
  store-Refines c now r (ok s) earlier e h = record {
    snapshot = rw e refl;
    time = rw e refl;
    failure = rw e refl;
    counts = λ key. rw (e, ← h.counts key) (count-bump c.requests (codes "success") key);
    keys = Different-bump c.requests (codes "success") h.keys;
  }
  store-Refines c now r (err b) earlier e h = record {
    snapshot = rw e h.snapshot;
    time = rw e h.time;
    failure = rw e refl;
    counts = λ key. rw (e, ← h.counts key) (count-bump c.requests (invalid_category b) key);
    keys = Different-bump c.requests (invalid_category b) h.keys;
  }

  poll-Refines :
      (c : Cache S) (now : Time) (fetched : Result ClientError R) (earlier : List Event)
      → Refines c earlier
      → Refines
          (poll (build now) invalid_category collected_at c fetched).0
          ((now, fetched) ∷ earlier)
  unfolding poll record_request
  poll-Refines c now (ok r) earlier h = store-Refines c now r (build now r) earlier refl h
  poll-Refines c now (err e) earlier h = record {
    snapshot = h.snapshot;
    time = h.time;
    failure = refl;
    counts = λ key. rw (← h.counts key) (count-bump c.requests (categorize_error e) key);
    keys = Different-bump c.requests (categorize_error e) h.keys;
  }

  -- The cache behind any polls holds the snapshot of the last that succeeded, with its time, and the
  -- failure of the last poll, if it failed; each counter is the number of the polls that ended in its
  -- category, and no category has two counters.
  pub cache_after-Refines : (trace : List Event) → Refines (cache_after trace) trace
  unfolding cache_after
  cache_after-Refines [] =
      unfold count in
      record { snapshot = refl; time = refl; failure = refl; counts = λ key. refl; keys = tt }
  cache_after-Refines ((now, fetched) ∷ earlier) =
      poll-Refines (cache_after earlier) now fetched earlier (cache_after-Refines earlier)

  latest_of_built :
      (P : S → Type 0) (now : Time) (r : R) (s : S) (before : Option S)
      → (build now r ≡ ok s → P s)
      → (before ≡ some s → P s)
      → (built : Result B S) → build now r ≡ built
      → or_before before (outcome_of built) ≡ some s
      → P s
  latest_of_built P now r s before h k (ok t) same e = h (cc (same, e))
  latest_of_built P now r s before h k (err b) same e = k e

  -- What holds of every snapshot that is built holds of the one in the cache.
  pub latest-all :
      (P : S → Type 0)
      → ((now : Time) (r : R) (s : S) → build now r ≡ ok s → P s)
      → (trace : List Event) (s : S) → latest trace ≡ some s
      → P s
  latest-all P h [] s e = cc
  latest-all P h ((now, err x) ∷ earlier) s e = latest-all P h earlier s e
  latest-all P h ((now, ok r) ∷ earlier) s e =
      latest_of_built P now r s (latest earlier) (h now r s) (latest-all P h earlier s)
        (build now r) refl e
