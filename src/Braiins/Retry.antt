-- ===== src/Braiins/Retry.antt =====
-- internal/braiins/client.go: `DoJSON`, the loop of attempts. What an attempt meets is a parameter: the
-- outcome of one request, the state of the context behind it, the clock and the sleeper.
pub mod Laws
pub mod Canceled
pub mod Tests
use braiins_pool_exporter.Base.{
  ℕ, zero, suc, ◌-◌, ◌||◌, not, Bool, List, [], ◌∷◌, Option, none, some, eqb, if◌then◌else◌,
}
use braiins_pool_exporter.Base.Int.{ℤ, pos, pos_part, eqb_ℤ}
use braiins_pool_exporter.Base.Float.{Float64}
use braiins_pool_exporter.Base.Result.{Result, ok, err}
use braiins_pool_exporter.Base.Time.{Time, Duration}
use braiins_pool_exporter.Text.{Text}
use braiins_pool_exporter.Braiins.Errors.{ClientError}
use braiins_pool_exporter.Braiins.Backoff.{RetryPolicy, should_retry, retry_delay}

-- What the attempts meet, by their number, from 1.
pub record World (A : Type 0) : Type 0 where
  -- what `doJSONOnce` returns and decodes
  pub outcome : ℕ → Result ClientError A
  -- `ctx.Err()` after the attempt
  pub ctx_err : ℕ → Option ClientError
  -- `c.retry.Now()`
  pub now : ℕ → Time
  -- what `Sleep(ctx, delay)` returns after the attempt
  pub sleep : ℕ → Duration → Option ClientError

-- What the call returns, the attempts that it has made, and the delays that it has slept, the last
-- first. `ok none` is the result of no attempt at all.
pub record Run (A : Type 0) : Type 0 where
  pub result : Result ClientError (Option A)
  pub attempts : ℕ
  pub delays : List Duration

module _ (parse_time : Text → Option Time) (fl : Float64) {A : Type 0} where
  -- `left` rounds of the loop are left; `attempt` is the next, `last` the result so far.
  unfoldable pub attempt_loop :
      RetryPolicy
      → World A
      → (left attempt : ℕ) → Result ClientError (Option A)
      → List Duration
      → Run A
  unfolding should_retry retry_delay
  attempt_loop policy w zero attempt last delays = record {
    result = last;
    attempts = attempt - 1;
    delays = delays;
  }
  attempt_loop policy w (suc left) attempt last delays = elim (w.outcome attempt) [
    | ok a ↦ record { result = ok (some a); attempts = attempt; delays = delays }
    | err e ↦
        let delay = retry_delay parse_time fl policy (w.now attempt) e attempt in
        let again = attempt_loop policy w left (suc attempt) (err e) (delay ∷ delays) in
        if not (should_retry (w.ctx_err attempt) e) || eqb_ℤ (pos attempt) policy.max_attempts
        then record { result = err e; attempts = attempt; delays = delays }
        else elim (w.sleep attempt delay) [
          | some cause ↦ record { result = err cause; attempts = attempt; delays = delay ∷ delays }
          | none ↦ again
        ]
  ]

  -- `for attempt := 1; attempt <= c.retry.MaxAttempts; attempt++`
  unfoldable pub do_json : RetryPolicy → World A → Run A
  unfolding attempt_loop
  do_json policy w = attempt_loop policy w (pos_part policy.max_attempts) 1 (ok none) []
