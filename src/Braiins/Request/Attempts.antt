-- ===== src/Braiins/Request/Attempts.antt =====
-- Which failures the next attempt may mend, and where the value of a call comes from.
use braiins_pool_exporter.Base.{
  ℕ, ◌≤◌, ◌<◌, ◌≡◌, refl, sym, ◌∙◌, ap, ◌≢◌, ◌⊎◌, inl, inr, String, true, false, Option, none, some,
  arith,
}
use braiins_pool_exporter.Base.Float.{Float64}
use braiins_pool_exporter.Base.Result.{Result, ok, err}
use braiins_pool_exporter.Base.Time.{Time}
use braiins_pool_exporter.Text.{Text}
use braiins_pool_exporter.Braiins.Errors.{ClientError, decode, too_large, other}
use braiins_pool_exporter.Braiins.Backoff.{RetryPolicy, should_retry}
use braiins_pool_exporter.Braiins.Backoff.Laws.{IsNormal}
use braiins_pool_exporter.Braiins.Retry.{World, do_json}
use braiins_pool_exporter.Braiins.Retry.Laws.{do_json_lem}
use braiins_pool_exporter.Braiins.Request.{HttpRequest}
use braiins_pool_exporter.Braiins.Request.Once.{
  SendError, Response, failed, transport_error, sent, do_json_once,
}
use braiins_pool_exporter.Braiins.Request.Sent.{IsRead, IsBroken, IsGood, refused, sent-Explained}

module _ (fold : Text → Text) where
  module _ {A : Type 0} (decode_body : Text → Option A) where
    -- The next attempt may fare better: the transport broke, or the server says that it is busy.
    abbrev pub IsTransient : Result SendError Response → Type 0
    IsTransient o =
        ((e : SendError) × IsBroken o e)
        ⊎ ((r : Response) × (o ≡ ok r)
            × IsRead r
            × ((r.status_code ≡ 429) ⊎ ((500 ≤ r.status_code) × (r.status_code ≤ 599))))

    should_retry-refused :
        (ctx : Option ClientError) (r : Response)
        → should_retry ctx (refused fold decode_body r) ≡ true
        → (r.status_code ≡ 429) ⊎ ((500 ≤ r.status_code) × (r.status_code ≤ 599))
    unfolding should_retry
    should_retry-refused (some cause) r h = cc
    should_retry-refused none r h = ground (arith, h)

    should_retry_lost :
        (ctx : Option ClientError) (e : ClientError)
        → (e ≡ too_large) ⊎ (e ≡ decode)
        → should_retry ctx e ≡ false
    unfolding should_retry
    should_retry_lost (some cause) e h = refl
    should_retry_lost none e (inl h) = rw h refl
    should_retry_lost none e (inr h) = rw h refl

    sent-IsTransient :
        (ctx : Option ClientError) (o : Result SendError Response) (e : ClientError)
        → sent fold decode_body o ≡ some (err e)
        → should_retry ctx e ≡ true
        → IsTransient o
    sent-IsTransient ctx o e h again = elim (sent-Explained fold decode_body o) [
      | inl (cause, broken, _) ↦ inl (cause, broken)
      | inr (inl (r, _, _, out)) ↦ let lost = should_retry_lost ctx e (inl cc) in cc
      | inr (inr (inl (r, here, read, _, out))) ↦
          let same : refused fold decode_body r ≡ e = cc in
          inr (r, here, read, should_retry-refused ctx r (rw same again))
      | inr (inr (inr (inl (r, _, _, _, _, out)))) ↦
          let lost = should_retry_lost ctx e (inr cc) in cc
      | inr (inr (inr (inr (r, a, _, _, _, _, out)))) ↦ cc
    ]

    -- The request was built and sent, and its response is a success that was read whole and decoded.
    abbrev pub Brings :
        (HttpRequest → Result SendError Response) → Result String HttpRequest → A → Type 0
    Brings send built a =
        (request : HttpRequest) × (r : Response) × (built ≡ ok request)
        × (send request ≡ ok r)
        × IsRead r
        × IsGood fold decode_body r
        × (decode_body r.body ≡ some a)

    failed-not-ok : (e : Option ClientError) (a : A) → failed fold {A = A} e ≢ some (ok a)
    failed-not-ok none a h = cc
    failed-not-ok (some e) a h = cc

    do_json_once-IsTransient :
        (ctx : Option ClientError) (send : HttpRequest → Result SendError Response)
        (built : Result String HttpRequest) (e : ClientError)
        → do_json_once fold decode_body send built ≡ some (err e)
        → should_retry ctx e ≡ true
        → (request : HttpRequest) × (built ≡ ok request) × IsTransient (send request)
    unfolding do_json_once should_retry
    do_json_once-IsTransient (some cause) send built e h again = cc
    do_json_once-IsTransient none send (err message) e h again =
        let same : other message false ≡ e = cc in
        let never : should_retry none e ≡ false = rw (← same) refl in cc
    do_json_once-IsTransient none send (ok request) e h again =
        (request, refl, sent-IsTransient none (send request) e h again)

    do_json_once-Brings :
        (send : HttpRequest → Result SendError Response) (built : Result String HttpRequest) (a : A)
        → do_json_once fold decode_body send built ≡ some (ok a)
        → Brings send built a
    unfolding do_json_once
    do_json_once-Brings send (err message) a h = cc
    do_json_once-Brings send (ok request) a h =
        elim (sent-Explained fold decode_body (send request)) [
          | inl (cause, broken, out) ↦
              absurd (failed-not-ok (transport_error fold cause) a (sym out ∙ h))
          | inr (inl (r, _, _, out)) ↦ cc
          | inr (inr (inl (r, here, read, _, out))) ↦ cc
          | inr (inr (inr (inl (r, _, _, _, _, out)))) ↦ cc
          | inr (inr (inr (inr (r, b, here, read, good, fine, out)))) ↦
              (request, r, refl, here, read, good, cc)
        ]

    module _ (parse_time : Text → Option Time) (fl : Float64) (p : RetryPolicy) (w : World A)
        (send : ℕ → HttpRequest → Result SendError Response)
        (built : Result String HttpRequest) where
      -- Where the outcomes of a call's attempts are those of `doJSONOnce`, an attempt before the last met a
      -- transport that broke, or a status that is 429 or from 500 to 599 behind a body read whole.
      pub do_json-IsTransient :
          IsNormal p
          → ((k : ℕ) → do_json_once fold decode_body (send k) built ≡ some (w.outcome k))
          → (k : ℕ) → 1 ≤ k
          → k < (do_json parse_time fl p w).attempts
          → (request : HttpRequest) × (built ≡ ok request) × IsTransient (send k request)
      do_json-IsTransient normal same k k1 kn =
          let (e, bad, again, _) = (do_json_lem parse_time fl p w normal).earlier k k1 kn in
          do_json_once-IsTransient (w.ctx_err k) (send k) built e (rw (same k) (ap some bad)) again

      -- A call whose outcomes are those of `doJSONOnce` returns a value only where its last attempt was
      -- answered by a status from 200 to 299 with a body of at most 1048576 bytes that was read whole and
      -- is decoded to the value.
      pub do_json-Brings :
          IsNormal p
          → ((k : ℕ) → do_json_once fold decode_body (send k) built ≡ some (w.outcome k))
          → (a : A) → (do_json parse_time fl p w).result ≡ ok (some a)
          → Brings (send (do_json parse_time fl p w).attempts) built a
      do_json-Brings normal same a h =
          let r = do_json parse_time fl p w in
          elim ((do_json_lem parse_time fl p w normal).last) [
            | inl (b, good, value) ↦
                let one : b ≡ a = cc in
                do_json_once-Brings (send r.attempts) built a (rw (same r.attempts, good, one) refl)
            | inr (inl (e, _, bad, _)) ↦ cc
            | inr (inr (e, cause, _, _, _, bad)) ↦ cc
          ]
