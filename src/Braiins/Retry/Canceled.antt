-- ===== src/Braiins/Retry/Canceled.antt =====
-- internal/braiins/client.go: `timerSleeper`, and the calls whose context ends on the way.
use native.Mathlib.Decide.{dec_lt}
use braiins_pool_exporter.Base.{
  ℕ, ◌≤◌, ◌≡◌, refl, ◌⊎◌, inl, inr, true, false, Option, none, some, arith, if◌then◌else◌,
}
use braiins_pool_exporter.Base.Int.{pos, leb_ℤ, ◌≤ℤ◌}
use braiins_pool_exporter.Base.Float.{Float64}
use braiins_pool_exporter.Base.Result.{ok, err}
use braiins_pool_exporter.Base.Time.{Time, Duration}
use braiins_pool_exporter.Text.{Text}
use braiins_pool_exporter.Braiins.Errors.{ClientError}
use braiins_pool_exporter.Braiins.Backoff.{RetryPolicy, should_retry}
use braiins_pool_exporter.Braiins.Backoff.Laws.{IsNormal}
use braiins_pool_exporter.Braiins.Retry.{World, Run, do_json}
use braiins_pool_exporter.Braiins.Retry.Laws.{WasRetried, delay_after, do_json_lem}

-- What the select gets: the timer, or the end of the context with its error.
pub data Wake : Type 0 where
  by_timer : Wake
  by_context : ClientError → Wake

abbrev cause_of : Wake → Option ClientError
cause_of by_timer = none
cause_of (by_context cause) = some cause

-- `Sleep`: a delay that is not positive is over at once, whatever the context.
unfoldable pub timer_sleep : Wake → Duration → Option ClientError
timer_sleep wake delay = if leb_ℤ delay (pos 0) then none else cause_of wake

-- The world of a call whose sleeper is the timer's.
abbrev pub with_timer : {A : Type 0} → World A → (ℕ → Wake) → World A
with_timer w wake = record w { sleep = λ k. timer_sleep (wake k) }

timer_sleep-by_context :
    (cause : ClientError) (d : Duration)
    → pos 1 ≤ℤ d
    → timer_sleep (by_context cause) d ≡ some cause
unfolding timer_sleep
timer_sleep-by_context cause d long =
    let wait : leb_ℤ d (pos 0) ≡ false = ground arith in rw wait refl

should_retry-some : (cause e : ClientError) → should_retry (some cause) e ≡ false
unfolding should_retry
should_retry-some cause e = refl

module _ (parse_time : Text → Option Time) (fl : Float64) {A : Type 0} (p : RetryPolicy)
    (w : World A) (wake : ℕ → Wake) where
  abbrev pub timed_call : Run A
  timed_call = do_json parse_time fl p (with_timer w wake)

  -- The context is done when attempt `k` is over, or ends the wait behind it.
  abbrev pub IsDone : ℕ → ClientError → Type 0
  IsDone k cause =
      (w.ctx_err k ≡ some cause)
      ⊎ ((wake k ≡ by_context cause)
          × ((e : ClientError) → w.outcome k ≡ err e → pos 1 ≤ℤ delay_after parse_time fl p w k e))

  WasRetried-not_done :
      (k : ℕ) (cause : ClientError)
      → IsDone k cause
      → WasRetried parse_time fl p (with_timer w wake) k
      → ⊥
  WasRetried-not_done k cause (inl done) (e, bad, again, slept) =
      let never : should_retry (w.ctx_err k) e ≡ false = rw done (should_retry-some cause e) in cc
  WasRetried-not_done k cause (inr (woken, long)) (e, bad, again, slept) =
      let broken : timer_sleep (wake k) (delay_after parse_time fl p w k e) ≡ some cause =
        rw woken (timer_sleep-by_context cause _ (long e bad)) in
      cc

  -- What breaks the wait off is then the context.
  found_cause :
      (k : ℕ) (cause found e : ClientError)
      → IsDone k cause
      → w.outcome k ≡ err e
      → should_retry (w.ctx_err k) e ≡ true
      → timer_sleep (wake k) (delay_after parse_time fl p w k e) ≡ some found
      → found ≡ cause
  found_cause k cause found e (inl done) bad again broken =
      let never : should_retry (w.ctx_err k) e ≡ false = rw done (should_retry-some cause e) in cc
  found_cause k cause found e (inr (woken, long)) bad again broken =
      let same : timer_sleep (wake k) (delay_after parse_time fl p w k e) ≡ some cause =
        rw woken (timer_sleep-by_context cause _ (long e bad)) in
      cc

  -- The call ends with attempt `k` at the latest.
  pub record Stops (k : ℕ) (cause : ClientError) (r : Run A) : Type 0 where
    pub few : r.attempts ≤ k
    pub own :
        r.attempts ≡ k
        → ((a : A) × (w.outcome k ≡ ok a) × (r.result ≡ ok (some a)))
          ⊎ ((e : ClientError) × (w.outcome k ≡ err e)
              × ((r.result ≡ err e) ⊎ (r.result ≡ err cause)))

  -- A call under a normal policy makes no attempt behind attempt `k` where the context is done when `k`
  -- is over, or ends its wait, which is not empty. Where `k` is made, its value is returned in spite of
  -- that, and otherwise its own error or that of the context.
  pub do_json_canceled :
      (k : ℕ) (cause : ClientError) → IsNormal p → 1 ≤ k → IsDone k cause → Stops k cause timed_call
  do_json_canceled k cause h k1 done =
      let explained = do_json_lem parse_time fl p (with_timer w wake) h in
      record {
        few = elim (dec_lt k timed_call.attempts) [
          | yes more ↦ absurd (WasRetried-not_done k cause done (explained.earlier k k1 more))
          | no most ↦ omega arith
        ];
        own = λ same. elim explained.last [
          | inl (a, good, value) ↦ inl (a, rw (← same) good, value)
          | inr (inl (e, bad, value, _)) ↦ inr (e, rw (← same) bad, inl value)
          | inr (inr (e, found, bad, again, broken, value)) ↦
              let bad_k : w.outcome k ≡ err e = rw (← same) bad in
              let one : found ≡ cause =
                found_cause k cause found e done bad_k (rw (← same) again) (rw (← same) broken) in
              inr (e, bad_k, inr (rw (← one) value))
        ];
      }
