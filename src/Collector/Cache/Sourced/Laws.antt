-- ===== src/Collector/Cache/Sourced/Laws.antt =====
-- Where the snapshot of a cache comes from.
use mathlib.Core.Path.{subst}
use braiins_pool_exporter.Base.{
  Bool, ℕ, ◌≡◌, ◌≢◌, refl, sym, ◌∙◌, ◌⊎◌, inl, inr, String, List, [], ◌∷◌, ◌++◌, Option, none, some,
  All, arith,
}
use braiins_pool_exporter.Base.Float.{Float64}
use braiins_pool_exporter.Base.Int.{pos, ◌≤ℤ◌}
use braiins_pool_exporter.Base.Result.{Result, ok, err, Result-cases}
use braiins_pool_exporter.Base.Time.{Time}
use braiins_pool_exporter.Text.{Text, Map, trim_right}
use braiins_pool_exporter.Braiins.Errors.{ClientError}
use braiins_pool_exporter.Braiins.Backoff.{RetryPolicy}
use braiins_pool_exporter.Braiins.Backoff.Laws.{IsNormal}
use braiins_pool_exporter.Braiins.Retry.{World, do_json}
use braiins_pool_exporter.Braiins.Retry.Laws.{do_json_lem}
use braiins_pool_exporter.Braiins.Request.{
  BaseUrl, ClientConfig, Client, new_client, Request, HttpRequest, new_request, is_slash,
  normalize_coin_selector,
}
use braiins_pool_exporter.Braiins.Request.Laws.{new_client-IsSafe, Asked, new_request-path}
use braiins_pool_exporter.Braiins.Request.Once.{Response}
use braiins_pool_exporter.Braiins.Request.Sent.{IsRead, IsGood}
use braiins_pool_exporter.Braiins.Request.Attempts.{Brings, do_json-Brings}
use braiins_pool_exporter.Collector.Cache.Trace.{
  cache_after, latest, outcome, outcome_of, or_before, cache_after-Refines,
}
use braiins_pool_exporter.Collector.Cache.Sourced.{ApiCall, fetched, IsFaithful, call_api, polls}

fetched-some :
    {A : Type 0} (zero a : A) (r : Result ClientError (Option A))
    → r ≢ ok none
    → fetched zero r ≡ ok a
    → r ≡ ok (some a)
unfolding fetched
fetched-some zero a (err e) h k = cc
fetched-some zero a (ok none) h k = absurd (h refl)
fetched-some zero a (ok (some b)) h k = cc

module _ (parse_time : Text → Option Time) (fl : Float64) {A : Type 0} (zero : A)
    (policy : RetryPolicy) where
  do_json-attempted :
      (w : World A) → IsNormal policy → (do_json parse_time fl policy w).result ≢ ok none
  do_json-attempted w normal h = elim ((do_json_lem parse_time fl policy w normal).last) [
    | inl (a, _, value) ↦ cc
    | inr (inl (e, _, bad, _)) ↦ cc
    | inr (inr (e, cause, _, _, _, bad)) ↦ cc
  ]

  abbrev pub attempts_of : ApiCall A → ℕ
  attempts_of call = (do_json parse_time fl policy call.world).attempts

  -- A value that a call returns is brought by its last attempt.
  call_api-Brings :
      (fold : Text → Text) (decode_body : Text → Option A) (built : Result String HttpRequest)
      (call : ApiCall A) (a : A)
      → IsNormal policy
      → IsFaithful fold decode_body built call
      → call_api parse_time fl zero policy call ≡ ok a
      → Brings fold decode_body (call.send (attempts_of call)) built a
  call_api-Brings fold decode_body built call a normal faithful h =
      do_json-Brings fold decode_body parse_time fl policy call.world call.send built normal
        faithful a (fetched-some zero a _ (do_json-attempted call.world normal) h)

  -- `Q` tells of a call and the value that it returns.
  module _ {B S : Type 0} (build : Time → A → Result B S) (invalid_category : B → Text)
      (collected_at : S → Time) (Q : ApiCall A → A → Type 0) where
    -- The snapshot is built from the value of one of the calls.
    abbrev pub IsSourced : S → List (ApiCall A) → Type 0
    IsSourced s [] = ⊥
    IsSourced s (call ∷ calls) =
        ((a : A) × Q call a × (build call.now a ≡ ok s)) ⊎ IsSourced s calls

    built-IsSourced :
        (call : ApiCall A) (calls : List (ApiCall A)) (before : Option S) (a : A) (s : S)
        (out : Result B S)
        → build call.now a ≡ out
        → Q call a
        → (before ≡ some s → IsSourced s calls)
        → or_before build invalid_category collected_at before
            (outcome_of build invalid_category collected_at out)
          ≡ some s
        → IsSourced s (call ∷ calls)
    built-IsSourced call calls before a s (ok t) e q h same =
        let one : t ≡ s = cc in inl (a, q, rw (← one) e)
    built-IsSourced call calls before a s (err b) e q h same = inr (h same)

    latest-IsSourced :
        (P : ApiCall A → Type 0)
        → ((call : ApiCall A) (a : A)
            → P call
            → call_api parse_time fl zero policy call ≡ ok a
            → Q call a)
        → (calls : List (ApiCall A)) (s : S) → All P calls
        → latest build invalid_category collected_at (polls parse_time fl zero policy calls)
          ≡ some s
        → IsSourced s calls
    latest-IsSourced P sound [] s holds h = cc
    latest-IsSourced P sound (call ∷ calls) s holds h =
        let before =
          latest build invalid_category collected_at (polls parse_time fl zero policy calls) in
        let earlier = latest-IsSourced P sound calls s holds.1 in
        let at = λ (r : Result ClientError A).
          or_before build invalid_category collected_at before
            (outcome build invalid_category collected_at (call.now, r)) in
        elim (Result-cases (call_api parse_time fl zero policy call)) [
          | inl (a, good) ↦
              built-IsSourced call calls before a s (build call.now a) refl
                (sound call a holds.0 good) earlier (subst (λ r. at r ≡ some s) good h)
          | inr (e, bad) ↦ inr (earlier (subst (λ r. at r ≡ some s) bad h))
        ]

module _ (fold clean : Text → Text)
    (is_buildable : (scheme host path : Text) (query : Map Text) → Bool)
    (parse_time : Text → Option Time) (fl : Float64) {A : Type 0} (decode_body : Text → Option A)
    (zero : A) (c : Client) (req : Request) (front : Text) where
  -- Where the value of a call comes from.
  pub record Origin (call : ApiCall A) (a : A) : Type 0 where
    pub request : HttpRequest
    pub response : Response
    pub made : new_request fold clean is_buildable c req ≡ ok request
    pub place :
        (request.scheme ≡ c.base_url.scheme)
        × (request.host ≡ c.base_url.host)
        × (request.path
            ≡ trim_right is_slash c.base_url.path
              ++ b'/' ∷ (front ++ normalize_coin_selector fold clean is_buildable req.coin))
    pub answered : call.send (attempts_of parse_time fl zero c.retry call) request ≡ ok response
    pub few : pos (attempts_of parse_time fl zero c.retry call) ≤ℤ pos 3
    pub whole : IsRead response
    pub good : IsGood fold decode_body response
    pub value : decode_body response.body ≡ some a

  call_api-Origin :
      (call : ApiCall A) (a : A)
      → IsNormal c.retry
      → Asked req.endpoint front
      → IsFaithful fold decode_body (new_request fold clean is_buildable c req) call
      → call_api parse_time fl zero c.retry call ≡ ok a
      → Origin call a
  call_api-Origin call a normal asked faithful h =
      let explained = do_json_lem parse_time fl c.retry call.world normal in
      let (request, response, made, answered, whole, good, value) =
        call_api-Brings parse_time fl zero c.retry fold decode_body
          (new_request fold clean is_buildable c req) call a normal faithful h in
      let (_, scheme, host, path, _) =
        new_request-path fold clean is_buildable c req front request asked made in
      let most = explained.few_attempts in
      let three = normal.few_attempts in
      record {
        request = request;
        response = response;
        made = made;
        place = (scheme, host, path);
        answered = answered;
        few = omega arith;
        whole = whole;
        good = good;
        value = value;
      }

  -- A cache that is polled through a client that `NewClient` has made, and through one of the plain
  -- endpoints, holds no snapshot but one that is built from the decoded body of a response: with a status
  -- from 200 to 299 and at most 1048576 bytes that were read whole, to a request at the endpoint's path of
  -- the base URL's host, in the third attempt of its poll at the latest.
  pub cache_after-IsSourced :
      {B S : Type 0} (build : Time → A → Result B S) (invalid_category : B → Text)
      (collected_at : S → Time) (parse_url : Text → Option BaseUrl) (cfg : ClientConfig)
      (calls : List (ApiCall A)) (s : S)
      → new_client parse_url cfg ≡ ok c
      → Asked req.endpoint front
      → All (IsFaithful fold decode_body (new_request fold clean is_buildable c req)) calls
      → (cache_after build invalid_category collected_at
          (polls parse_time fl zero c.retry calls)).last_good
        ≡ some s
      → IsSourced parse_time fl zero c.retry build invalid_category collected_at Origin s calls
  cache_after-IsSourced build invalid_category collected_at parse_url cfg calls s made asked
        faithful h =
      let normal = (new_client-IsSafe parse_url cfg c made).normal in
      let refines =
        cache_after-Refines build invalid_category collected_at
          (polls parse_time fl zero c.retry calls) in
      latest-IsSourced parse_time fl zero c.retry build invalid_category collected_at Origin
        (IsFaithful fold decode_body (new_request fold clean is_buildable c req))
        (λ call a. call_api-Origin call a normal asked) calls s faithful (sym refines.snapshot ∙ h)
