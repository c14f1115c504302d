-- ===== src/Braiins/Retry/Tests.antt =====
-- A call whose context ends, at a concrete world.
use braiins_pool_exporter.Base.{ℕ, ◌≡◌, refl, false, [], none, inr, arith, if◌then◌else◌, eqb}
use braiins_pool_exporter.Base.Int.{pos, ◌≤ℤ◌, ◌*ℤ◌}
use braiins_pool_exporter.Base.Result.{err}
use braiins_pool_exporter.Braiins.Errors.{ClientError, transport, other}
use braiins_pool_exporter.Braiins.Backoff.{retry_delay}
use braiins_pool_exporter.Braiins.Retry.{World}
use braiins_pool_exporter.Braiins.Retry.Canceled.{
  Wake, by_timer, by_context, timed_call, Stops, do_json_canceled,
}
use braiins_pool_exporter.Braiins.Tests.{whole_numbers, no_dates, policy, policy-IsNormal}

abbrev canceled : ClientError
canceled = other "context canceled" false

-- No response ever comes.
abbrev dead : World ℕ
dead = record {
  outcome = λ k. err (transport [] false);
  ctx_err = λ k. none;
  now = λ k. pos 0;
  sleep = λ k delay. none;
}

-- The context ends in the wait behind the second attempt.
abbrev wakes : ℕ → Wake
wakes k = if eqb k 2 then by_context canceled else by_timer

long_wait : pos 1 ≤ℤ retry_delay no_dates whole_numbers policy (pos 0) (transport [] false) 2
unfolding retry_delay ◌*ℤ◌
long_wait = omega arith

do_json_canceled_example :
    Stops no_dates whole_numbers policy dead wakes 2 canceled
      (timed_call no_dates whole_numbers policy dead wakes)
do_json_canceled_example =
    do_json_canceled no_dates whole_numbers policy dead wakes 2 canceled policy-IsNormal
      (omega arith)
      (inr (refl, λ e h. let same : transport [] false ≡ e = cc in rw (← same) long_wait))
