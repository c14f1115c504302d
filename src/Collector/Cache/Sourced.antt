-- ===== src/Collector/Cache/Sourced.antt =====
-- A collector over the client (internal/collector over internal/braiins/client.go): the polls of a cache
-- whose responses are what the calls of the API return.
pub mod Laws
pub mod Tests
use braiins_pool_exporter.Base.{ℕ, ◌≡◌, String, List, [], ◌∷◌, Option, none, some}
use braiins_pool_exporter.Base.Float.{Float64}
use braiins_pool_exporter.Base.Result.{Result, ok, err}
use braiins_pool_exporter.Base.Time.{Time}
use braiins_pool_exporter.Text.{Text}
use braiins_pool_exporter.Braiins.Errors.{ClientError}
use braiins_pool_exporter.Braiins.Backoff.{RetryPolicy}
use braiins_pool_exporter.Braiins.Retry.{World, do_json}
use braiins_pool_exporter.Braiins.Request.{HttpRequest}
use braiins_pool_exporter.Braiins.Request.Once.{SendError, Response, do_json_once}

-- What one call of the API meets: the world of its attempts, what the transport does with the request of
-- each attempt, and what the clock of the collector shows behind the call.
pub record ApiCall (A : Type 0) : Type 0 where
  pub world : World A
  pub send : ℕ → HttpRequest → Result SendError Response
  pub now : Time

-- `PoolStats`, `Profile`, `Workers`, `Rewards` and `Payouts` return their variable, which is zero where
-- no attempt has filled it, and the error.
unfoldable pub fetched : {A : Type 0} → A → Result ClientError (Option A) → Result ClientError A
fetched zero (err e) = err e
fetched zero (ok none) = ok zero
fetched zero (ok (some a)) = ok a

-- Each outcome is what `doJSONOnce` makes of what the transport does with the request that was built.
abbrev pub IsFaithful :
    (Text → Text)
    → {A : Type 0} → (Text → Option A)
    → Result String HttpRequest
    → ApiCall A
    → Type 0
IsFaithful fold decode_body built call =
    (k : ℕ) → do_json_once fold decode_body (call.send k) built ≡ some (call.world.outcome k)

module _ (parse_time : Text → Option Time) (fl : Float64) {A : Type 0} (zero : A)
    (policy : RetryPolicy) where
  abbrev pub call_api : ApiCall A → Result ClientError A
  call_api call = fetched zero (do_json parse_time fl policy call.world).result

  -- The polls that the calls make, the last first.
  abbrev pub polls : List (ApiCall A) → List (Time × Result ClientError A)
  polls [] = []
  polls (call ∷ calls) = (call.now, call_api call) ∷ polls calls
