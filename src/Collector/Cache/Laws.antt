-- ===== src/Collector/Cache/Laws.antt =====
-- What polls do to a cache.
use braiins_pool_exporter.Base.{
  ◌+◌, ◌≡◌, refl, ◌≢◌, ◌⊎◌, inl, inr, Bool, true, false, ◌||◌, List, [], ◌∷◌, Option, none, some,
  arith, length, if◌then◌else◌,
}
use braiins_pool_exporter.Base.Result.{Result, ok, err}
use braiins_pool_exporter.Base.Time.{Time}
use braiins_pool_exporter.Text.{Text, codes, ◌==◌}
use braiins_pool_exporter.Braiins.Errors.{ClientError, categorize_error}
use braiins_pool_exporter.Collector.Counters.{count, count-bump, all_requests, all_requests-bump}
use braiins_pool_exporter.Collector.Cache.{
  Cache, PollError, record_request, ready, accept, store, poll,
}

module _ {R B S : Type 0} (build : R → Result B S) (invalid_category : B → Text)
    (collected_at : S → Time) where
  -- The category under which a poll is counted.
  abbrev built_category : Result B S → Text
  built_category (ok s) = codes "success"
  built_category (err e) = invalid_category e

  abbrev pub category_of : Result ClientError R → Text
  category_of (err e) = categorize_error e
  category_of (ok response) = built_category (build response)

  -- A new snapshot is in place, built from the response.
  abbrev pub Replaced : Result ClientError R → Cache S → Type 0
  Replaced fetched c' =
      (r : R) × (s : S) × (fetched ≡ ok r)
      × (build r ≡ ok s)
      × (c'.last_good ≡ some s)
      × (c'.last_success ≡ some (collected_at s))
      × (c'.last_error ≡ [])

  -- The old snapshot and its time stand, and the category is kept as the last error.
  abbrev pub Kept : Cache S → Result ClientError R → Cache S → Type 0
  Kept c fetched c' =
      (c'.last_good ≡ c.last_good)
      × (c'.last_success ≡ c.last_success)
      × (c'.last_error ≡ category_of fetched)

  pub record Polled (c : Cache S) (fetched : Result ClientError R)
      (after : Cache S × Option (PollError B)) : Type 0 where
    pub snapshot :
        ((after.1 ≡ none) × Replaced fetched after.0) ⊎ ((after.1 ≢ none) × Kept c fetched after.0)
    pub counted :
        (key : Text)
        → count after.0.requests key
          ≡ (if key == category_of fetched then count c.requests key + 1 else count c.requests key)

  store-Polled :
      (c : Cache S) (r : R) (built : Result B S)
      → build r ≡ built
      → Polled c (ok r) (store build invalid_category collected_at c built)
  unfolding store record_request accept
  store-Polled c r (ok s) e = record {
    snapshot = inl (refl, (r, s, refl, e, refl, refl, refl));
    counted = λ key. rw e (count-bump c.requests (codes "success") key);
  }
  store-Polled c r (err b) e = record {
    snapshot = inr (ground arith, (refl, refl, rw e));
    counted = λ key. rw e (count-bump c.requests (invalid_category b) key);
  }

  -- A poll that returns no error has put the snapshot in place that it built from the response, with its
  -- time. One that returns an error leaves the old snapshot and its time. Both count one request under
  -- their category and no other.
  pub poll-Polled :
      (c : Cache S) (fetched : Result ClientError R)
      → Polled c fetched (poll build invalid_category collected_at c fetched)
  unfolding poll record_request
  poll-Polled c (err e) = record {
    snapshot = inr (ground arith, (refl, refl, refl));
    counted = count-bump c.requests (categorize_error e);
  }
  poll-Polled c (ok r) = store-Polled c r (build r) refl

  -- The polls of a run, from the first.
  unfoldable pub poll_all : Cache S → List (Result ClientError R) → Cache S
  poll_all c [] = c
  poll_all c (fetched ∷ rest) = poll_all (poll build invalid_category collected_at c fetched).0 rest

  store-all_requests :
      (c : Cache S) (built : Result B S)
      → all_requests (store build invalid_category collected_at c built).0.requests
        ≡ all_requests c.requests + 1
  unfolding store record_request accept
  store-all_requests c (ok s) = all_requests-bump c.requests (codes "success")
  store-all_requests c (err b) = all_requests-bump c.requests (invalid_category b)

  poll-all_requests :
      (c : Cache S) (fetched : Result ClientError R)
      → all_requests (poll build invalid_category collected_at c fetched).0.requests
        ≡ all_requests c.requests + 1
  unfolding poll record_request
  poll-all_requests c (err e) = all_requests-bump c.requests (categorize_error e)
  poll-all_requests c (ok r) = store-all_requests c (build r)

  abbrev built_well : Result B S → Bool
  built_well (ok s) = true
  built_well (err e) = false

  -- The poll answers with a response that a snapshot can be built from.
  abbrev pub succeeds : Result ClientError R → Bool
  succeeds (ok r) = built_well (build r)
  succeeds (err e) = false

  abbrev pub any_success : List (Result ClientError R) → Bool
  any_success [] = false
  any_success (fetched ∷ rest) = succeeds fetched || any_success rest

  store-ready :
      (c : Cache S) (built : Result B S)
      → ready (store build invalid_category collected_at c built).0 ≡ (ready c || built_well built)
  unfolding store ready record_request accept
  store-ready c (ok s) = ground arith
  store-ready c (err b) = ground arith

  poll-ready :
      (c : Cache S) (fetched : Result ClientError R)
      → ready (poll build invalid_category collected_at c fetched).0 ≡ (ready c || succeeds fetched)
  unfolding poll ready record_request
  poll-ready c (ok r) = store-ready c (build r)
  poll-ready c (err e) = ground arith

  -- Over any run of polls the counters add up to the number of polls, and a collector is ready exactly
  -- when it was before or some poll of the run has succeeded.
  pub poll_all-counts :
      (c : Cache S) (run : List (Result ClientError R))
      → (all_requests (poll_all c run).requests ≡ all_requests c.requests + length run)
        × (ready (poll_all c run) ≡ (ready c || any_success run))
  unfolding poll_all
  poll_all-counts c [] = (omega arith, ground arith)
  poll_all-counts c (fetched ∷ rest) =
      let next = (poll build invalid_category collected_at c fetched).0 in
      let (sum, state) = poll_all-counts next rest in
      (omega (arith, sum, poll-all_requests c fetched), ground (arith, state, poll-ready c fetched))
