-- ===== src/Braiins/Request/Once.antt =====
-- One attempt (`doJSONOnce`) over a transport.
use braiins_pool_exporter.Base.{
  ℕ, ◌+◌, String, Bool, false, ◌||◌, Option, none, some, ltb, leb, if◌then◌else◌, length, take,
}
use braiins_pool_exporter.Base.Result.{Result, ok, err}
use braiins_pool_exporter.Text.{Text}
use braiins_pool_exporter.Braiins.Errors.{ClientError, status, transport, decode, too_large, other}
use braiins_pool_exporter.Braiins.Redact.{Redaction, text, panics, unfinished, safe_transport_error}
use braiins_pool_exporter.Braiins.Request.{HttpRequest}

-- An error of the transport: its text, whether the deadline of a context is behind it, and whether it
-- is a network error that calls itself a timeout.
pub record SendError : Type 0 where
  pub message : Text
  pub deadline : Bool
  pub net_timeout : Bool

-- What the body yields: bytes, and behind them, by a read of its own, an error or the end.
pub record Response : Type 0 where
  pub status_code : ℕ
  pub content_type : Text
  pub retry_after : Text
  pub body : Text
  pub failure : Option SendError

abbrev pub max_response_bytes : ℕ
max_response_bytes = 1_048_576

unfoldable pub is_timeout_error : SendError → Bool
is_timeout_error e = e.deadline || e.net_timeout

module _ (fold : Text → Text) where
  -- An attempt that panics has no outcome.
  abbrev redacted_error : Bool → Redaction → Option ClientError
  redacted_error timeout (text s) = some (transport s timeout)
  redacted_error timeout panics = none
  redacted_error timeout unfinished = none

  unfoldable pub transport_error : SendError → Option ClientError
  unfolding safe_transport_error is_timeout_error
  transport_error e = redacted_error (is_timeout_error e) (safe_transport_error fold e.message)

  abbrev pub failed : {A : Type 0} → Option ClientError → Option (Result ClientError A)
  failed none = none
  failed (some e) = some (err e)

  -- `io.ReadAll(io.LimitReader(resp.Body, maxResponseBytes+1))`: a body that is longer is cut, and an
  -- error behind the cut is not met.
  unfoldable pub read_body : Response → Result SendError Text
  read_body r =
      if leb (max_response_bytes + 1) (length r.body)
      then ok (take (max_response_bytes + 1) r.body)
      else elim r.failure [ none ↦ ok r.body | some e ↦ err e ]

  module _ {A : Type 0} (decode_body : Text → Option A) where
    abbrev decoded : Option A → Option (Result ClientError A)
    decoded none = some (err decode)
    decoded (some a) = some (ok a)

    unfoldable pub receive : Response → Result SendError Text → Option (Result ClientError A)
    unfolding transport_error
    receive r (err e) = failed (transport_error e)
    receive r (ok body) =
        if ltb max_response_bytes (length body)
        then some (err too_large)
        else if ltb r.status_code 200 || ltb 299 r.status_code
        then some (
            err (
              status (record {
                status_code = r.status_code;
                content_type = r.content_type;
                retry_after = r.retry_after;
              })))
        else decoded (decode_body body)

    unfoldable pub sent : Result SendError Response → Option (Result ClientError A)
    unfolding transport_error receive read_body
    sent (err e) = failed (transport_error e)
    sent (ok r) = receive r (read_body r)

    -- `send` is `c.client.Do`, for the request that `NewRequest` has built.
    unfoldable pub do_json_once :
        (HttpRequest → Result SendError Response)
        → Result String HttpRequest
        → Option (Result ClientError A)
    unfolding sent
    do_json_once send (err message) = some (err (other message false))
    do_json_once send (ok request) = sent (send request)
