-- ===== src/Braiins/Backoff/Overflow.antt =====
-- The number of seconds that a response asks to wait, against the range of a duration.
use braiins_pool_exporter.Base.{
  ap, ℕ, ◌+◌, ◌*◌, ◌≤◌, ◌≡◌, refl, Option, none, some, arith, Bool-cases, inl, inr, [], leb,
  if◌then◌else◌,
}
use braiins_pool_exporter.Base.Int.{ℤ, pos, ◌*ℤ◌, *ℤ_parts, eq_of_parts}
use braiins_pool_exporter.Base.Int64.{wrap64}
use braiins_pool_exporter.Base.Time.{Time, second}
use braiins_pool_exporter.Text.{Text, ◌==◌, trim_space}
use braiins_pool_exporter.Text.Numbers.{parse_int}
use braiins_pool_exporter.Text.Laws.{==_iff}
use braiins_pool_exporter.Base.Float.{Float64}
use braiins_pool_exporter.Braiins.Errors.{StatusError, status}
use braiins_pool_exporter.Braiins.Backoff.{
  RetryPolicy, cap_duration, rate_limit_delay, retry_delay, seconds_duration, parse_retry_after,
}

seconds_product : (n : ℕ) → pos n *ℤ pos second ≡ pos (n * second)
seconds_product n = eq_of_parts _ _ (omega (arith, *ℤ_parts (pos n) (pos second)))

parse_int_of_nil : parse_int [] ≡ none
unfolding parse_int
parse_int_of_nil = refl

module _ (parse_time : Text → Option Time) where
  -- A number of seconds is not looked at as a date.
  parse_retry_after_seconds :
      (value : Text) (now : Time) (n : ℤ)
      → parse_int (trim_space value) ≡ some n
      → parse_retry_after parse_time value now ≡ seconds_duration n
  unfolding parse_retry_after
  parse_retry_after_seconds value now n h = elim (Bool-cases (trim_space value == [])) [
    | inl blank ↦
        let empty : trim_space value ≡ [] = (==_iff (trim_space value) []).0 blank in
        absurd (cc (parse_int_of_nil, ap parse_int empty))
    | inr text ↦ rw (text, h)
  ]

  -- Up to 9223372036 seconds, about 292 years, a value that is a number of seconds is that delay.
  pub parse_retry_after_exact :
      (value : Text) (now : Time) (n : ℕ)
      → parse_int (trim_space value) ≡ some (pos n)
      → n ≤ 9_223_372_036
      → parse_retry_after parse_time value now ≡ some (pos (n * second))
  unfolding seconds_duration wrap64
  parse_retry_after_exact value now n h small =
      rw (parse_retry_after_seconds value now (pos n) h, seconds_product n) (ground arith)

  -- Above that the product wraps around: 18446744074 seconds and k more are read as 0.290448384 seconds
  -- and k more, for k up to 9223372035.
  parse_retry_after_wraps :
      (value : Text) (now : Time) (k : ℕ)
      → parse_int (trim_space value) ≡ some (pos (18_446_744_074 + k))
      → k ≤ 9_223_372_035
      → parse_retry_after parse_time value now ≡ some (pos (290_448_384 + k * second))
  unfolding seconds_duration wrap64
  parse_retry_after_wraps value now k h small =
      rw
        (
          parse_retry_after_seconds value now (pos (18_446_744_074 + k)) h,
          seconds_product (18_446_744_074 + k),
        )
        (ground arith)

  rate_limit_delay_min :
      (policy : RetryPolicy) (limit delay : ℕ)
      → policy.max_backoff ≡ pos limit
      → rate_limit_delay parse_time policy (some (pos delay))
        ≡ pos (if leb delay limit then delay else limit)
  unfolding rate_limit_delay cap_duration
  rate_limit_delay_min policy limit delay h = rw h (ground arith)

  -- The delay behind a response of status 429 that asks to wait for 18446744074 seconds and k more, for
  -- k up to 9223372035, is 0.290448384 seconds and k more, or the limit of the policy where that is
  -- less.
  pub retry_delay_wraps :
      (fl : Float64) (policy : RetryPolicy) (now : Time) (e : StatusError) (attempt limit k : ℕ)
      → e.status_code ≡ 429
      → policy.max_backoff ≡ pos limit
      → parse_int (trim_space e.retry_after) ≡ some (pos (18_446_744_074 + k))
      → k ≤ 9_223_372_035
      → let wrapped = 290_448_384 + k * second in
        retry_delay parse_time fl policy now (status e) attempt
        ≡ pos (if leb wrapped limit then wrapped else limit)
  unfolding retry_delay
  retry_delay_wraps fl policy now e attempt limit k limited bound h small =
      rw (limited, parse_retry_after_wraps e.retry_after now k h small)
        (rate_limit_delay_min policy limit (290_448_384 + k * second) bound)
