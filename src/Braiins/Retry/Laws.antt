-- ===== src/Braiins/Retry/Laws.antt =====
-- What a call of the API does, whatever its attempts meet.
use mathlib.Core.Path.{subst}
use native.Mathlib.Decide.{dec_lt}
use braiins_pool_exporter.Base.{
  ℕ, zero, suc, ◌+◌, ◌≤◌, ◌<◌, ◌≡◌, refl, ◌⊎◌, inl, inr, ◌||◌, not, true, false, List, [], ◌∷◌,
  Option, none, some, arith, All, length, Bool-cases, Option-cases,
}
use braiins_pool_exporter.Base.Int.{pos, pos_part, eqb_ℤ, ◌≤ℤ◌, eq_of_parts, neg_part_of_pos}
use braiins_pool_exporter.Base.Float.{Float64}
use braiins_pool_exporter.Base.Result.{Result, ok, err, Result-cases}
use braiins_pool_exporter.Base.Time.{Time, Duration}
use braiins_pool_exporter.Text.{Text}
use braiins_pool_exporter.Braiins.Errors.{ClientError}
use braiins_pool_exporter.Braiins.Backoff.{RetryPolicy, should_retry, retry_delay}
use braiins_pool_exporter.Braiins.Backoff.Laws.{IsNormal, IsWithin, retry_delay_bounds}
use braiins_pool_exporter.Braiins.Retry.{World, Run, attempt_loop, do_json}

-- What holds of every number from 1 below `n`, and of `n`, holds below `suc n`.
below_suc :
    (P : ℕ → Type 0) (n : ℕ)
    → ((k : ℕ) → 1 ≤ k → k < n → P k)
    → P n
    → (k : ℕ) → 1 ≤ k
    → k < suc n
    → P k
below_suc P n before here k k1 kn = elim (dec_lt k n) [
  | yes less ↦ before k k1 less
  | no more ↦ let same : n ≡ k = omega arith in subst P same here
]

module _ (parse_time : Text → Option Time) (fl : Float64) {A : Type 0} (p : RetryPolicy)
    (w : World A) where
  -- The delay before the attempt that follows a failure.
  abbrev pub delay_after : ℕ → ClientError → Duration
  delay_after k e = retry_delay parse_time fl p (w.now k) e k

  -- Attempt `k` failed with an error that is worth another, and the wait went through.
  abbrev pub WasRetried : ℕ → Type 0
  WasRetried k =
      (e : ClientError) × (w.outcome k ≡ err e)
      × (should_retry (w.ctx_err k) e ≡ true)
      × (w.sleep k (delay_after k e) ≡ none)

  -- The last attempt succeeded, and its value is returned.
  abbrev pub Succeeds : Run A → Type 0
  Succeeds r = (a : A) × (w.outcome r.attempts ≡ ok a) × (r.result ≡ ok (some a))

  -- It failed for good, or was the last allowed: its error is returned.
  abbrev pub Fails : Run A → Type 0
  Fails r =
      (e : ClientError) × (w.outcome r.attempts ≡ err e)
      × (r.result ≡ err e)
      × ((should_retry (w.ctx_err r.attempts) e ≡ false) ⊎ (pos r.attempts ≡ p.max_attempts))

  -- The wait behind it was broken off, and the cause of that is returned.
  abbrev pub BreaksOff : Run A → Type 0
  BreaksOff r =
      (e cause : ClientError) × (w.outcome r.attempts ≡ err e)
      × (should_retry (w.ctx_err r.attempts) e ≡ true)
      × (w.sleep r.attempts (delay_after r.attempts e) ≡ some cause)
      × (r.result ≡ err cause)

  pub record Explains (r : Run A) : Type 0 where
    pub some_attempt : 1 ≤ r.attempts
    pub few_attempts : pos r.attempts ≤ℤ p.max_attempts
    pub earlier : (k : ℕ) → 1 ≤ k → k < r.attempts → WasRetried k
    pub last : Succeeds r ⊎ Fails r ⊎ BreaksOff r

  attempt_loop-Explains :
      (left attempt : ℕ) (last : Result ClientError (Option A)) (delays : List Duration)
      → IsNormal p
      → 1 ≤ left
      → 1 ≤ attempt
      → attempt + left ≡ pos_part p.max_attempts + 1
      → ((k : ℕ) → 1 ≤ k → k < attempt → WasRetried k)
      → Explains (attempt_loop parse_time fl p w left attempt last delays)
  unfolding attempt_loop
  attempt_loop-Explains zero attempt last delays h l1 a1 sum before = absurd (omega arith)
  attempt_loop-Explains (suc left) attempt last delays h l1 a1 sum before =
      let whole = neg_part_of_pos p.max_attempts h.some_attempts in
      let few : pos attempt ≤ℤ p.max_attempts = omega arith in
      elim (Result-cases (w.outcome attempt)) [
        | inl (a, good) ↦
            rw (good, attempt_loop)
              (record {
                some_attempt = a1;
                few_attempts = few;
                earlier = before;
                last = inl (a, good, refl);
              })
        | inr (e, bad) ↦ elim (Bool-cases (should_retry (w.ctx_err attempt) e)) [
          | inr final ↦
              rw (bad, attempt_loop, final)
                (record {
                  some_attempt = a1;
                  few_attempts = few;
                  earlier = before;
                  last = inr (inl (e, bad, refl, inl final));
                })
          | inl again ↦ elim (Bool-cases (eqb_ℤ (pos attempt) p.max_attempts)) [
            | inl most ↦
                rw (bad, attempt_loop, again, most)
                  (record {
                    some_attempt = a1;
                    few_attempts = few;
                    earlier = before;
                    last = inr (inl (e, bad, refl, inr (eq_of_parts _ _ (ground arith))));
                  })
            | inr more ↦ elim (Option-cases (w.sleep attempt (delay_after attempt e))) [
              | inr (cause, broken) ↦
                  rw (bad, attempt_loop, again, more, broken)
                    (record {
                      some_attempt = a1;
                      few_attempts = few;
                      earlier = before;
                      last = inr (inr (e, cause, bad, again, broken, refl));
                    })
              | inl slept ↦
                  rw (bad, attempt_loop, again, more, slept)
                    (attempt_loop-Explains left (suc attempt) _ _ h (ground arith) (omega arith)
                      (omega arith) (below_suc WasRetried attempt before (e, bad, again, slept)))
            ]
          ]
        ]
      ]

  -- A call under a normal policy makes at least one attempt and at most as many as the policy allows.
  -- Each attempt before the last failed with an error that is worth a retry, and its wait went through.
  -- The result is the last attempt's value, or its error where that is final or the attempts are used
  -- up, or the cause that broke the wait off.
  pub do_json_lem : IsNormal p → Explains (do_json parse_time fl p w)
  unfolding do_json
  do_json_lem h =
      let positive = h.some_attempts in
      attempt_loop-Explains (pos_part p.max_attempts) 1 (ok none) [] h (ground arith) (omega arith)
        (omega arith) (λ k k1 kn. absurd (omega arith))

  attempt_loop-delays :
      (left attempt : ℕ) (last : Result ClientError (Option A)) (delays : List Duration)
      → IsNormal p
      → length delays + 1 ≡ attempt
      → All (IsWithin p) delays
      → let r = attempt_loop parse_time fl p w left attempt last delays in
        (length r.delays ≤ r.attempts) × All (IsWithin p) r.delays
  unfolding attempt_loop
  attempt_loop-delays zero attempt last delays h few within = (omega arith, within)
  attempt_loop-delays (suc left) attempt last delays h few within =
      elim (Result-cases (w.outcome attempt)) [
        | inl (a, good) ↦ rw (good, attempt_loop) (omega arith, within)
        | inr (e, bad) ↦
            let slept : All (IsWithin p) (delay_after attempt e ∷ delays) =
              (retry_delay_bounds parse_time fl p (w.now attempt) e attempt h, within) in
            elim (Bool-cases
              (not (should_retry (w.ctx_err attempt) e) || eqb_ℤ (pos attempt) p.max_attempts)) [
                | inl stop ↦ rw (bad, attempt_loop, stop) (omega arith, within)
                | inr go ↦ elim (Option-cases (w.sleep attempt (delay_after attempt e))) [
                  | inr (cause, broken) ↦ rw (bad, attempt_loop, go, broken) (omega arith, slept)
                  | inl through ↦
                      rw (bad, attempt_loop, go, through)
                        (attempt_loop-delays left (suc attempt) (err e)
                          (delay_after attempt e ∷ delays) h (omega arith) slept)
                ]
              ]
      ]

  -- A call under a normal policy sleeps at most once for each attempt, and each time for a delay that is
  -- not negative and at most the policy's longest.
  pub do_json_delays :
      IsNormal p
      → let r = do_json parse_time fl p w in
        (length r.delays ≤ r.attempts) × All (IsWithin p) r.delays
  unfolding do_json
  do_json_delays h = attempt_loop-delays (pos_part p.max_attempts) 1 (ok none) [] h refl tt
