-- ===== src/Braiins/Backoff/Laws.antt =====
-- The delays that a policy allows.
use braiins_pool_exporter.Base.{ℕ, ◌-◌, ◌≡◌, Bool-cases, Option, none, some, arith, eqb, inl, inr}
use braiins_pool_exporter.Base.Int.{ℤ, pos, ◌≤ℤ◌}
use braiins_pool_exporter.Base.Float.{Float64}
use braiins_pool_exporter.Base.Time.{Time, Duration}
use braiins_pool_exporter.Text.{Text}
use braiins_pool_exporter.Braiins.Errors.{ClientError, status}
use braiins_pool_exporter.Braiins.Backoff.{
  RetryPolicy, normalize_retry_policy, cap_duration, rate_limit_delay, exponential_delay,
  retry_delay, parse_retry_after,
}

-- A policy as a client keeps it.
pub record IsNormal (p : RetryPolicy) : Type 0 where
  pub some_attempts : pos 1 ≤ℤ p.max_attempts
  pub few_attempts : p.max_attempts ≤ℤ pos 3
  pub initial : pos 1 ≤ℤ p.initial_backoff
  pub longest : pos 1 ≤ℤ p.max_backoff
  pub rate_limit : pos 1 ≤ℤ p.rate_limit_backoff

normalize_of_IsNormal : (p : RetryPolicy) → IsNormal p → normalize_retry_policy p ≡ p
unfolding normalize_retry_policy
normalize_of_IsNormal p h = ground arith

-- Every policy is made normal, and a normal one is left alone.
pub normalize_retry_policy-IsNormal :
    (p : RetryPolicy)
    → IsNormal (normalize_retry_policy p)
      × (normalize_retry_policy (normalize_retry_policy p) ≡ normalize_retry_policy p)
unfolding normalize_retry_policy
normalize_retry_policy-IsNormal p = (normal, normalize_of_IsNormal _ normal)
  where
    normal : IsNormal (normalize_retry_policy p)
    normal = ground arith

pub cap_duration_bounds :
    (value max : Duration)
    → pos 0 ≤ℤ max
    → (pos 0 ≤ℤ cap_duration value max) × (cap_duration value max ≤ℤ max)
unfolding cap_duration
cap_duration_bounds value max h = ground arith

abbrev pub IsWithin : RetryPolicy → Duration → Type 0
IsWithin p delay = (pos 0 ≤ℤ delay) × (delay ≤ℤ p.max_backoff)

cap_duration-IsWithin :
    (p : RetryPolicy) → IsNormal p → (v : Duration) → IsWithin p (cap_duration v p.max_backoff)
cap_duration-IsWithin p h v = cap_duration_bounds v p.max_backoff (omega arith)

module _ (parse_time : Text → Option Time) where
  rate_limit_delay-IsWithin :
      (p : RetryPolicy) (asked : Option Duration)
      → IsNormal p
      → IsWithin p (rate_limit_delay parse_time p asked)
  unfolding rate_limit_delay
  rate_limit_delay-IsWithin p none h = cap_duration-IsWithin p h p.rate_limit_backoff
  rate_limit_delay-IsWithin p (some delay) h = cap_duration-IsWithin p h delay

  module _ (fl : Float64) where
    exponential_delay-IsWithin :
        (p : RetryPolicy) (n : ℤ) → IsNormal p → IsWithin p (exponential_delay parse_time fl p n)
    unfolding exponential_delay
    exponential_delay-IsWithin p n h = cap_duration-IsWithin p h (
        fl.to_int (fl.mul (fl.of_int p.initial_backoff) (fl.pow (fl.of_int (pos 2)) (fl.of_int n))))

    -- Whatever the error, the response's Retry-After and the rounding of floats, the delay is not
    -- negative and at most the longest backoff.
    pub retry_delay_bounds :
        (p : RetryPolicy) (now : Time) (e : ClientError) (attempt : ℕ)
        → IsNormal p
        → IsWithin p (retry_delay parse_time fl p now e attempt)
    unfolding retry_delay
    retry_delay_bounds p now (status e) attempt h = elim (Bool-cases (eqb e.status_code 429)) [
      | inl limited ↦
          rw limited
            (rate_limit_delay-IsWithin p (parse_retry_after parse_time e.retry_after now) h)
      | inr plain ↦ rw plain (exponential_delay-IsWithin p (pos (attempt - 1)) h)
    ]
    retry_delay_bounds p now e attempt h = exponential_delay-IsWithin p (pos (attempt - 1)) h
