-- ===== src/Braiins/Request/Laws.antt =====
-- What a client and a request that are built hold to.
use mathlib.Core.Path.{subst}
use braiins_pool_exporter.Base.{
  String, ◌≡◌, refl, ◌≢◌, ◌∙◌, ap, ◌⊎◌, inl, inr, Bool, false, not, [], ◌∷◌, ◌++◌, append-nil,
  Option, none, some, arith, if◌then◌else◌, not-false, or-false, Bool-cases,
}
use braiins_pool_exporter.Base.Int.{pos, ◌≤ℤ◌}
use braiins_pool_exporter.Base.Result.{
  Result, ok, err, >>=-eq-ok, fail_if-ok, ok-injective, Result-cases,
}
use braiins_pool_exporter.Text.{Text, Map, codes, ◌==◌, trim_left, trim_right, has_prefix}
use braiins_pool_exporter.Text.Laws.{==_iff, is_not}
use braiins_pool_exporter.Braiins.Backoff.Laws.{IsNormal, normalize_retry_policy-IsNormal}
use braiins_pool_exporter.Braiins.Request.{
  BaseUrl, ClientConfig, Client, client_with, replace, is_relative, says_more, is_foreign,
  new_client, Endpoint, pool_stats, profile, rewards, block_rewards, workers, payouts, Request,
  replace_all, endpoint_path, is_slash, join_url_path, HttpRequest, url_of, check_url,
  normalize_coin_selector, request_to, takes_url, new_request,
}

-- What a client keeps, for as long as it lives.
pub record IsSafe (c : Client) : Type 0 where
  pub web : (c.base_url.scheme ≡ codes "https") ⊎ (c.base_url.scheme ≡ codes "http")
  pub some_host : c.base_url.host ≢ []
  pub no_user : c.base_url.has_user ≡ false
  pub no_query : c.base_url.raw_query ≡ []
  pub no_fragment : c.base_url.fragment ≡ []
  pub some_time : pos 1 ≤ℤ c.timeout
  pub normal : IsNormal c.retry

is_web :
    (url : BaseUrl)
    → is_foreign url ≡ false
    → (url.scheme ≡ codes "https") ⊎ (url.scheme ≡ codes "http")
is_web url h = elim (Bool-cases (url.scheme == codes "https")) [
  | inl secure ↦ inl ((==_iff _ _).0 secure)
  | inr other ↦
      let plain : not (url.scheme == codes "http") ≡ false = rw other at h in
      inr ((==_iff _ _).0 (not-false _ plain))
]

-- A client that is made speaks HTTP or HTTPS to a host, with a URL that carries no credentials, no
-- query and no fragment, under a positive timeout and a normal policy, whatever it was configured with.
pub new_client-IsSafe :
    (parse_url : Text → Option BaseUrl) (cfg : ClientConfig) (c : Client)
    → new_client parse_url cfg ≡ ok c
    → IsSafe c
unfolding new_client check_url
new_client-IsSafe parse_url cfg c h =
    let (url, _, h1) = >>=-eq-ok (url_of parse_url cfg) (check_url cfg) h in
    let (absolute, h2) = fail_if-ok (is_relative url) _ _ h1 in
    let (bare, h3) = fail_if-ok (says_more url) _ _ h2 in
    let (web, h4) = fail_if-ok (is_foreign url) _ _ h3 in
    let (_, host) = or-false (url.scheme == []) (url.host == []) absolute in
    let (user, rest) = or-false _ _ bare in
    let (query, fragment) = or-false _ _ rest in
    subst IsSafe {x = client_with cfg url} (ok-injective h4) (record {
      web = is_web url web;
      some_host = is_not _ _ host;
      no_user = user;
      no_query = (==_iff _ _).0 (not-false _ query);
      no_fragment = (==_iff _ _).0 (not-false _ fragment);
      some_time = ground arith;
      normal = (normalize_retry_policy-IsNormal cfg.retry).0;
    })

-- What stands in front of the coin in the paths that the exporter asks for.
pub data Asked : Endpoint → Text → Type 0 where
  of_pool_stats : Asked pool_stats (codes "stats/json/")
  of_profile : Asked profile (codes "accounts/profile/json/")
  of_rewards : Asked rewards (codes "accounts/rewards/json/")
  of_block_rewards : Asked block_rewards (codes "accounts/block_rewards/json/")
  of_workers : Asked workers (codes "accounts/workers/json/")
  of_payouts : Asked payouts (codes "accounts/payouts/json/")

join_url_path_lem :
    (base rest : Text)
    → join_url_path base rest ≡ trim_right is_slash base ++ b'/' ∷ trim_left is_slash rest
unfolding join_url_path
join_url_path_lem base rest = elim (Bool-cases (trim_right is_slash base == [])) [
  | inl empty ↦ rw (empty, (==_iff (trim_right is_slash base) []).0 empty) refl
  | inr full ↦ rw full refl
]

endpoint_path-Asked :
    (clean : Text → Text) (endpoint : Endpoint) (front coin group : Text)
    → Asked endpoint front
    → endpoint_path clean endpoint coin group ≡ ok (b'/' ∷ (front ++ coin))
unfolding endpoint_path replace_all replace has_prefix
endpoint_path-Asked clean endpoint front coin group of_pool_stats =
    ap (λ end. ok (codes "/stats/json/" ++ end)) (append-nil coin)
endpoint_path-Asked clean endpoint front coin group of_profile =
    ap (λ end. ok (codes "/accounts/profile/json/" ++ end)) (append-nil coin)
endpoint_path-Asked clean endpoint front coin group of_rewards =
    ap (λ end. ok (codes "/accounts/rewards/json/" ++ end)) (append-nil coin)
endpoint_path-Asked clean endpoint front coin group of_block_rewards =
    ap (λ end. ok (codes "/accounts/block_rewards/json/" ++ end)) (append-nil coin)
endpoint_path-Asked clean endpoint front coin group of_workers =
    ap (λ end. ok (codes "/accounts/workers/json/" ++ end)) (append-nil coin)
endpoint_path-Asked clean endpoint front coin group of_payouts =
    ap (λ end. ok (codes "/accounts/payouts/json/" ++ end)) (append-nil coin)

-- The path begins behind the base's with one slash.
trim_left-Asked :
    (endpoint : Endpoint) (front rest : Text)
    → Asked endpoint front
    → trim_left is_slash (b'/' ∷ (front ++ rest)) ≡ front ++ rest
unfolding trim_left
trim_left-Asked endpoint front rest of_pool_stats = refl
trim_left-Asked endpoint front rest of_profile = refl
trim_left-Asked endpoint front rest of_rewards = refl
trim_left-Asked endpoint front rest of_block_rewards = refl
trim_left-Asked endpoint front rest of_workers = refl
trim_left-Asked endpoint front rest of_payouts = refl

-- What of a request may be seen in a log: all but the token.
abbrev pub without_token : HttpRequest → HttpRequest
without_token r = record {
  scheme = r.scheme;
  host = r.host;
  path = r.path;
  query = r.query;
  user_agent = r.user_agent;
  auth_token = none;
}

abbrev pub seen : Result String HttpRequest → Result String HttpRequest
seen (ok r) = ok (without_token r)
seen (err e) = err e

abbrev pub with_token : Client → Text → Client
with_token c token = record {
  base_url = c.base_url;
  token = token;
  timeout = c.timeout;
  retry = c.retry;
}

module _ (fold clean : Text → Text)
    (is_buildable : (scheme host path : Text) (query : Map Text) → Bool) where
  -- A request for one of the plain endpoints names a coin that is not empty, goes to the base URL's
  -- scheme and host, and its path is the base's without slashes at its end, one slash, the endpoint's
  -- path and the normal coin; the token stands in the header, if there is one.
  pub new_request-path :
      (c : Client) (req : Request) (front : Text) (r : HttpRequest)
      → Asked req.endpoint front
      → new_request fold clean is_buildable c req ≡ ok r
      → let coin = normalize_coin_selector fold clean is_buildable req.coin in
        (coin ≢ [])
        × (r.scheme ≡ c.base_url.scheme)
        × (r.host ≡ c.base_url.host)
        × (r.path ≡ trim_right is_slash c.base_url.path ++ b'/' ∷ (front ++ coin))
        × (r.auth_token ≡ (if c.token == [] then none else some c.token))
  unfolding new_request request_to
  new_request-path c req front r asked h =
      let coin = normalize_coin_selector fold clean is_buildable req.coin in
      let relative = b'/' ∷ (front ++ coin) in
      let made = request_to fold clean is_buildable c req relative in
      let (named, h1) = fail_if-ok (coin == []) _ _ h in
      let found = endpoint_path-Asked clean req.endpoint front coin req.group asked in
      let (_, h2) =
        fail_if-ok (not (takes_url fold clean is_buildable made)) _ _ (rw found at h1) in
      let same : made ≡ r = ok-injective h2 in
      let path : join_url_path c.base_url.path relative
          ≡ trim_right is_slash c.base_url.path ++ relative =
        join_url_path_lem c.base_url.path relative
        ∙ ap (λ end. trim_right is_slash c.base_url.path ++ b'/' ∷ end)
            (trim_left-Asked req.endpoint front coin asked) in
      rw (← same) (is_not coin [] named, refl, refl, path, refl)

  -- Two clients that differ in their tokens build the same request but for the header of the token:
  -- no other part of it, and no failure to build it, depends on the token.
  pub new_request-token :
      (c : Client) (token other : Text) (req : Request)
      → seen (new_request fold clean is_buildable (with_token c token) req)
        ≡ seen (new_request fold clean is_buildable (with_token c other) req)
  unfolding new_request request_to
  new_request-token c token other req =
      let coin = normalize_coin_selector fold clean is_buildable req.coin in
      elim (Bool-cases (coin == [])) [
        | inl empty ↦ rw empty refl
        | inr named ↦ elim (Result-cases (endpoint_path clean req.endpoint coin req.group)) [
          | inr (message, unknown) ↦ rw (named, unknown) refl
          | inl (relative, known) ↦
              let of =
                λ (t : Text). request_to fold clean is_buildable (with_token c t) req relative in
              elim (Bool-cases (takes_url fold clean is_buildable (of token))) [
                | inl fine ↦ rw (named, known, fine) refl
                | inr bad ↦ rw (named, known, bad) refl
              ]
        ]
      ]
