-- ===== src/Collector/Cache/Sections.antt =====
-- Poll and Collect of internal/collector/{pool,account,worker}.go by their critical sections: a poll takes
-- the lock to count and, for a new snapshot, once more to publish it, and scrapes come in between.
pub mod Laws
pub mod Tests
use braiins_pool_exporter.Base.{List, [], ◌∷◌, Option}
use braiins_pool_exporter.Base.Result.{Result, ok, err}
use braiins_pool_exporter.Base.Time.{Time}
use braiins_pool_exporter.Text.{Text, codes}
use braiins_pool_exporter.Braiins.Errors.{ClientError, categorize_error}
use braiins_pool_exporter.Collector.Counters.{Counters}
use braiins_pool_exporter.Collector.Cache.{Cache, empty_cache, record_request, accept}

-- What a poll still has to do: nothing, or to publish a snapshot.
pub data Phase (S : Type 0) : Type 0 where
  idle : Phase S
  publishing : S → Phase S

-- What `Collect` reads under the lock.
pub record Observation (S : Type 0) : Type 0 where
  pub last_good : Option S
  pub requests : Counters

abbrev pub observe : {S : Type 0} → Cache S → Observation S
observe c = record { last_good = c.last_good; requests = c.requests }

-- A poll: what the clock shows behind the request, and what the request returned.
abbrev pub Poll : Type 0 → Type 0
Poll R = Time × Result ClientError R

-- A scrape: the polls that had been counted by then, the last first, what the last of them still had to
-- do, and what the scrape read.
pub record Scrape (R S : Type 0) : Type 0 where
  pub polls : List (Poll R)
  pub phase : Phase S
  pub read : Observation S

-- The cache, what the last poll has to do, the polls that have been counted, and the scrapes, the last
-- first.
pub data State (R S : Type 0) : Type 0 where
  state : Cache S → Phase S → List (Poll R) → List (Scrape R S) → State R S

module _ {R B S : Type 0} (build : Time → R → Result B S) (invalid_category : B → Text)
    (collected_at : S → Time) where
  abbrev pub count_built : Cache S → Result B S → Cache S × Phase S
  count_built c (err b) = (record_request c (invalid_category b), idle)
  count_built c (ok s) = (record_request c (codes "success"), publishing s)

  -- The request, the build and `recordRequest`.
  unfoldable pub count_poll : Cache S → Poll R → Cache S × Phase S
  unfolding record_request categorize_error
  count_poll c (now, err e) = (record_request c (categorize_error e), idle)
  count_poll c (now, ok r) = count_built c (build now r)

  -- The assignments under the second lock.
  unfoldable pub publish_poll : Cache S → S → Cache S
  unfolding accept
  publish_poll c s = accept c s (collected_at s)

  -- One poller, which begins no poll before the last has ended, and any number of scrapes.
  pub data Step : State R S → State R S → Type 0 where
    poll_counts :
        (c : Cache S) (polls : List (Poll R)) (seen : List (Scrape R S)) (p : Poll R)
        → Step
            (state c idle polls seen)
            (state (count_poll c p).0 (count_poll c p).1 (p ∷ polls) seen)
    poll_publishes :
        (c : Cache S) (polls : List (Poll R)) (seen : List (Scrape R S)) (s : S)
        → Step (state c (publishing s) polls seen) (state (publish_poll c s) idle polls seen)
    scrape :
        (c : Cache S) (phase : Phase S) (polls : List (Poll R)) (seen : List (Scrape R S))
        → Step
            (state c phase polls seen)
            (state c phase polls (record { polls = polls; phase = phase; read = observe c } ∷ seen))

  pub data Reached : State R S → Type 0 where
    start : Reached (state empty_cache idle [] [])
    later : {s t : State R S} → Reached s → Step s t → Reached t
