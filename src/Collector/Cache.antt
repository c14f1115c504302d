-- ===== src/Collector/Cache.antt =====
-- The state that the pool, account and worker collectors keep alike, and their poll: a request, a build
-- of a whole snapshot, and only then a new snapshot in the cache.
pub mod Laws
pub mod Trace
pub mod Ticker
pub mod Sections
pub mod Sourced
use braiins_pool_exporter.Base.{ℕ, String, Bool, true, false, Option, none, some, [], if◌then◌else◌}
use braiins_pool_exporter.Base.Result.{Result, ok, err}
use braiins_pool_exporter.Base.Time.{Time, Duration, sub}
use braiins_pool_exporter.Text.{Text, codes}
use braiins_pool_exporter.Braiins.Errors.{ClientError, categorize_error}
use braiins_pool_exporter.Collector.Counters.{Counters, bump}

-- `lastSuccess` is `none` while it is the zero time.
pub record Cache (S : Type 0) : Type 0 where
  pub last_good : Option S
  pub last_success : Option Time
  pub last_error : Text
  pub requests : Counters

-- The error that a poll returns.
pub data PollError (B : Type 0) : Type 0 where
  request : ClientError → PollError B
  invalid : B → PollError B

module _ {S : Type 0} where
  abbrev pub empty_cache : Cache S
  empty_cache = record { last_good = none; last_success = none; last_error = []; requests = [] }

  unfoldable pub record_request : Cache S → Text → Cache S
  unfolding bump
  record_request c category = record c {
    last_error = category;
    requests = bump c.requests category;
  }

  unfoldable pub ready : Cache S → Bool
  ready c = elim c.last_good [ none ↦ false | some s ↦ true ]

  -- The three assignments under the lock.
  unfoldable pub accept : Cache S → S → Time → Cache S
  accept c snapshot at = record c {
    last_good = some snapshot;
    last_success = some at;
    last_error = [];
  }

-- `R` is the response, `B` the errors of the build, `invalid_category` their label, and `collected_at`
-- the time that the snapshot carries.
module _ {R B S : Type 0} (build : R → Result B S) (invalid_category : B → Text)
    (collected_at : S → Time) where
  unfoldable pub store : Cache S → Result B S → Cache S × Option (PollError B)
  unfolding record_request accept
  store c (err e) = (record_request c (invalid_category e), some (invalid e))
  store c (ok snapshot) =
      (accept (record_request c (codes "success")) snapshot (collected_at snapshot), none)

  unfoldable pub poll : Cache S → Result ClientError R → Cache S × Option (PollError B)
  unfolding record_request categorize_error store
  poll c (err e) = (record_request c (categorize_error e), some (request e))
  poll c (ok response) = store c (build response)

-- `LastSuccess` and `DataAge` of the account.
unfoldable pub data_age : {S : Type 0} → Cache S → Time → Option Duration
unfolding sub
data_age c now = elim c.last_success [ none ↦ none | some t ↦ some (sub now t) ]
