-- ===== src/Braiins/Errors.antt =====
-- internal/braiins/client.go: the errors of a call, and how the collectors name them
-- (`categorizeError` in internal/collector/account.go).
use braiins_pool_exporter.Base.{ℕ, String, Bool, ◌&&◌, leb, eqb, if◌then◌else◌}
use braiins_pool_exporter.Text.{Text, codes}

pub record StatusError : Type 0 where
  pub status_code : ℕ
  pub content_type : Text
  pub retry_after : Text

-- The `Err` of a transport error is a new error that holds the redacted text, so nothing is found
-- behind it; nor is anything behind a decode error that the code asks for.
pub data ClientError : Type 0 where
  status : StatusError → ClientError
  transport : (text : Text) (timeout : Bool) → ClientError
  decode too_large : ClientError
  -- `context.Canceled` and `context.DeadlineExceeded`, as they are
  canceled deadline_exceeded : ClientError
  -- any other error; the flag says that it is a `net.Error` and a timeout
  other : String → (timeout : Bool) → ClientError

-- The values of the label `result` other than those that a collector adds.
unfoldable pub categorize_error : ClientError → Text
categorize_error (status e) =
    if eqb e.status_code 401
    then codes "unauthorized"
    else if eqb e.status_code 403
    then codes "forbidden"
    else if eqb e.status_code 429
    then codes "rate_limited"
    else if leb 500 e.status_code && leb e.status_code 599
    then codes "server"
    else codes "http_error"
categorize_error decode = codes "decode"
categorize_error too_large = codes "invalid_data"
categorize_error (transport text timeout) = if timeout then codes "timeout" else codes "transport"
categorize_error canceled = codes "canceled"
categorize_error deadline_exceeded = codes "timeout"
categorize_error (other text timeout) = if timeout then codes "timeout" else codes "error"
