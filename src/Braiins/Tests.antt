-- ===== src/Braiins/Tests.antt =====
-- The client's theorems at concrete inputs, and runs of its functions.
use braiins_pool_exporter.Base.{
  ℕ, ◌+◌, ◌*◌, ◌≤◌, ◌≡◌, refl, false, [], ◌∷◌, Option, none, some, arith, eqb, leb, if◌then◌else◌,
  length, All,
}
use braiins_pool_exporter.Base.Int.{ℤ, pos, pos_part, ltb_ℤ, ◌*ℤ◌}
use braiins_pool_exporter.Base.Float.{Float64}
use braiins_pool_exporter.Base.Result.{ok, err}
use braiins_pool_exporter.Base.Time.{Time, second}
use braiins_pool_exporter.Text.{Text, codes, trim_space}
use braiins_pool_exporter.Text.Numbers.{parse_int}
use braiins_pool_exporter.Braiins.Errors.{ClientError, StatusError, status, transport}
use braiins_pool_exporter.Braiins.Backoff.{
  RetryPolicy, normalize_retry_policy, parse_retry_after, retry_delay,
}
use braiins_pool_exporter.Braiins.Backoff.Laws.{IsNormal, IsWithin, normalize_retry_policy-IsNormal}
use braiins_pool_exporter.Braiins.Backoff.Overflow.{parse_retry_after_exact, retry_delay_wraps}
use braiins_pool_exporter.Braiins.Retry.{World, do_json}
use braiins_pool_exporter.Braiins.Retry.Laws.{Explains, do_json_lem, do_json_delays}

-- Whole numbers in place of floats.
abbrev pub whole_numbers : Float64
whole_numbers = record {
  F = ℤ;
  parse_float = parse_int;
  is_inf = λ x. false;
  is_nan = λ x. false;
  of_int = λ n. n;
  to_int = λ x. x;
  less = ltb_ℤ;
  mul = ◌*ℤ◌;
  pow = λ x n. if eqb (pos_part n) 0 then pos 1 else x;
  of_rat = λ num den. num;
  seconds = λ d. d;
}

abbrev pub no_dates : Text → Option Time
no_dates value = none

abbrev pub policy : RetryPolicy
policy = record {
  max_attempts = pos 3;
  initial_backoff = pos second;
  max_backoff = pos (5 * second);
  rate_limit_backoff = pos (5 * second);
}

pub policy-IsNormal : IsNormal policy
policy-IsNormal = ground arith

abbrev too_many : ClientError
too_many = status (record { status_code = 429; content_type = []; retry_after = codes " 2 " })

-- A rate limit, a broken connection, and then a response.
abbrev rocky : World ℕ
rocky = record {
  outcome =
      λ k. if eqb k 1 then err too_many else if eqb k 2 then err (transport [] false) else ok 7;
  ctx_err = λ k. none;
  now = λ k. pos 0;
  sleep = λ k d. none;
}

rocky_run : do_json no_dates whole_numbers policy rocky ≡ record {
  result = ok (some 7);
  attempts = 3;
  delays = pos (2 * second) ∷ pos (2 * second) ∷ [];
}
unfolding do_json ◌*ℤ◌
rocky_run = refl

do_json_lem_example :
    Explains no_dates whole_numbers policy rocky (do_json no_dates whole_numbers policy rocky)
do_json_lem_example = do_json_lem no_dates whole_numbers policy rocky policy-IsNormal

do_json_delays_example :
    let r = do_json no_dates whole_numbers policy rocky in
    (length r.delays ≤ r.attempts) × All (IsWithin policy) r.delays
do_json_delays_example = do_json_delays no_dates whole_numbers policy rocky policy-IsNormal

abbrev wild : RetryPolicy
wild = record {
  max_attempts = pos 9;
  initial_backoff = pos 0;
  max_backoff = pos 0;
  rate_limit_backoff = pos 7;
}

normalize_retry_policy-IsNormal_example :
    IsNormal (normalize_retry_policy wild)
    × (normalize_retry_policy (normalize_retry_policy wild) ≡ normalize_retry_policy wild)
normalize_retry_policy-IsNormal_example = normalize_retry_policy-IsNormal wild

parse_two : parse_int (trim_space (codes " 2 ")) ≡ some (pos 2)
unfolding parse_int trim_space
parse_two = refl

parse_long : parse_int (trim_space (codes "18446744075")) ≡ some (pos (18_446_744_074 + 1))
unfolding parse_int trim_space
parse_long = refl

parse_retry_after_exact_example :
    parse_retry_after no_dates (codes " 2 ") (pos 0) ≡ some (pos (2 * second))
parse_retry_after_exact_example =
    parse_retry_after_exact no_dates (codes " 2 ") (pos 0) 2 parse_two (omega arith)

abbrev long_wait : StatusError
long_wait = record { status_code = 429; content_type = []; retry_after = codes "18446744075" }

retry_delay_wraps_example :
    let wrapped = 290_448_384 + 1 * second in
    retry_delay no_dates whole_numbers policy (pos 0) (status long_wait) 1
    ≡ pos (if leb wrapped (5 * second) then wrapped else 5 * second)
retry_delay_wraps_example =
    retry_delay_wraps no_dates whole_numbers policy (pos 0) long_wait 1 (5 * second) 1 refl refl
      parse_long (omega arith)

-- A request to wait for about 585 years is followed by a wait of 1.29 seconds.
short_wait :
    retry_delay no_dates whole_numbers policy (pos 0) (status long_wait) 1 ≡ pos 1_290_448_384
unfolding retry_delay trim_space parse_int ◌*ℤ◌
short_wait = refl
