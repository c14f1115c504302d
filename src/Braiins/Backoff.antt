-- ===== src/Braiins/Backoff.antt =====
-- internal/braiins/client.go: the retry policy and the delay before the next attempt.
pub mod Laws
pub mod Overflow
use braiins_pool_exporter.Base.{
  ℕ, ◌*◌, ◌-◌, Bool, true, false, ◌&&◌, ◌||◌, Option, none, some, eqb, leb, if◌then◌else◌, [],
}
use braiins_pool_exporter.Base.Int.{ℤ, pos, negsuc, ltb_ℤ, leb_ℤ}
use braiins_pool_exporter.Base.Int64.{mul64}
use braiins_pool_exporter.Base.Float.{Float64}
use braiins_pool_exporter.Base.Time.{Time, Duration, second, sub}
use braiins_pool_exporter.Text.{Text, ◌==◌, trim_space}
use braiins_pool_exporter.Text.Numbers.{parse_int}
use braiins_pool_exporter.Braiins.Errors.{
  ClientError, status, transport, decode, too_large, canceled, deadline_exceeded, other,
}

-- The bounds of a policy. The sleeper and the clock, which the source keeps with them, are arguments
-- of the functions that call them.
pub record RetryPolicy : Type 0 where
  pub max_attempts : ℤ
  pub initial_backoff : Duration
  pub max_backoff : Duration
  pub rate_limit_backoff : Duration

abbrev positive_or : ℤ → ℤ → ℤ
positive_or z fallback = if leb_ℤ z (pos 0) then fallback else z

unfoldable pub normalize_retry_policy : RetryPolicy → RetryPolicy
normalize_retry_policy policy =
    let attempts = positive_or policy.max_attempts (pos 3) in
    record {
      max_attempts = if ltb_ℤ (pos 3) attempts then pos 3 else attempts;
      initial_backoff = positive_or policy.initial_backoff (pos second);
      max_backoff = positive_or policy.max_backoff (pos (5 * second));
      rate_limit_backoff = positive_or policy.rate_limit_backoff (pos (5 * second));
    }

-- `ctx_err` is what `ctx.Err()` returns.
unfoldable pub should_retry : Option ClientError → ClientError → Bool
should_retry (some cause) e = false
should_retry none (status e) =
    eqb e.status_code 429 || leb 500 e.status_code && leb e.status_code 599
should_retry none (transport text timeout) = true
should_retry none decode = false
should_retry none too_large = false
should_retry none canceled = false
should_retry none deadline_exceeded = false
should_retry none (other text timeout) = false

unfoldable pub cap_duration : Duration → Duration → Duration
cap_duration value max = if ltb_ℤ value (pos 0) then max else if ltb_ℤ max value then max else value

-- `time.Duration(seconds) * time.Second` in int64.
unfoldable pub seconds_duration : ℤ → Option Duration
unfolding mul64
seconds_duration seconds = if ltb_ℤ seconds (pos 0) then none else some (mul64 seconds (pos second))

-- `date` is what `http.ParseTime` makes of the value.
unfoldable pub date_duration : Option Time → Time → Option Duration
unfolding sub
date_duration none now = none
date_duration (some date) now = if ltb_ℤ (sub date now) (pos 0) then none else some (sub date now)

module _ (parse_time : Text → Option Time) where
  unfoldable pub retry_after_value : Text → Time → Option ℤ → Option Duration
  unfolding seconds_duration date_duration
  retry_after_value value now (some seconds) = seconds_duration seconds
  retry_after_value value now none = date_duration (parse_time value) now

  unfoldable pub parse_retry_after : Text → Time → Option Duration
  unfolding trim_space ◌==◌ parse_int retry_after_value
  parse_retry_after value now =
      let text = trim_space value in
      if text == [] then none else retry_after_value text now (parse_int text)

  -- A rate limit waits as long as the response asks, if it asks.
  unfoldable pub rate_limit_delay : RetryPolicy → Option Duration → Duration
  unfolding cap_duration
  rate_limit_delay policy (some delay) = cap_duration delay policy.max_backoff
  rate_limit_delay policy none = cap_duration policy.rate_limit_backoff policy.max_backoff

  module _ (fl : Float64) where
    open fl use {of_int, to_int, mul, pow}

    unfoldable pub exponential_delay : RetryPolicy → ℤ → Duration
    unfolding cap_duration
    exponential_delay policy attempt_before =
        cap_duration
          (to_int
            (mul (of_int policy.initial_backoff) (pow (of_int (pos 2)) (of_int attempt_before))))
          policy.max_backoff

    unfoldable pub retry_delay : RetryPolicy → Time → ClientError → ℕ → Duration
    unfolding parse_retry_after rate_limit_delay exponential_delay
    retry_delay policy now (status e) attempt =
        if eqb e.status_code 429
        then rate_limit_delay policy (parse_retry_after e.retry_after now)
        else exponential_delay policy (pos (attempt - 1))
    retry_delay policy now e attempt = exponential_delay policy (pos (attempt - 1))
