-- ===== src/Braiins/Request.antt =====
-- internal/braiins/client.go: the client, the request that it builds, and one attempt (`NewClient`,
-- `NewRequest`, `endpointPath`, `joinURLPath`, `doJSONOnce` and the five calls of the API).
pub mod Once
pub mod Laws
pub mod Sent
pub mod Attempts
pub mod Tests
use braiins_pool_exporter.Base.{
  ℕ, zero, suc, ◌+◌, ◌-◌, ◌*◌, String, Bool, true, false, not, ◌&&◌, ◌||◌, List, [], ◌∷◌, ◌++◌,
  Option, none, some, eqb, if◌then◌else◌, length,
}
use braiins_pool_exporter.Base.Int.{ℤ, pos, leb_ℤ}
use braiins_pool_exporter.Base.Result.{Result, ok, err, ◌>>=◌, ◌>>◌, fail_if}
use braiins_pool_exporter.Base.Time.{Duration, second}
use braiins_pool_exporter.Text.{
  Text, Map, codes, ◌==◌, has_prefix, trim_space, trim_left, trim_right, to_lower,
}
use braiins_pool_exporter.Braiins.Backoff.{RetryPolicy, normalize_retry_policy}

-- What `url.Parse` finds, as far as it is looked at.
pub record BaseUrl : Type 0 where
  pub scheme : Text
  pub host : Text
  pub path : Text
  pub has_user : Bool
  pub raw_query : Text
  pub fragment : Text

pub record ClientConfig : Type 0 where
  pub base_url : Text
  pub token : Text
  pub timeout : Duration
  pub retry : RetryPolicy

-- The transport, which is an interface, is an argument of an attempt.
pub record Client : Type 0 where
  pub base_url : BaseUrl
  pub token : Text
  pub timeout : Duration
  pub retry : RetryPolicy

abbrev or_relative : Option BaseUrl → Result String BaseUrl
or_relative none = err "Braiins API base URL must be absolute"
or_relative (some url) = ok url

abbrev pub is_relative : BaseUrl → Bool
is_relative url = url.scheme == [] || url.host == []

abbrev pub says_more : BaseUrl → Bool
says_more url = url.has_user || (not (url.raw_query == []) || not (url.fragment == []))

abbrev pub is_foreign : BaseUrl → Bool
is_foreign url = not (url.scheme == codes "https") && not (url.scheme == codes "http")

abbrev pub client_with : ClientConfig → BaseUrl → Client
client_with cfg url = record {
  base_url = url;
  token = cfg.token;
  timeout = if leb_ℤ cfg.timeout (pos 0) then pos (10 * second) else cfg.timeout;
  retry = normalize_retry_policy cfg.retry;
}

unfoldable pub check_url : ClientConfig → BaseUrl → Result String Client
unfolding ◌==◌ normalize_retry_policy
check_url cfg url = do
  fail_if (is_relative url) "Braiins API base URL must be absolute"
  fail_if (says_more url)
      "Braiins API base URL must not contain credentials, a query, or a fragment"
  fail_if (is_foreign url) "Braiins API base URL must use HTTP or HTTPS"
  ok (client_with cfg url)

abbrev pub url_of : (Text → Option BaseUrl) → ClientConfig → Result String BaseUrl
url_of parse_url cfg =
    let trimmed = trim_space cfg.base_url in
    or_relative (parse_url (if trimmed == [] then codes "https://pool.braiins.com" else trimmed))

-- `parse_url` is `url.Parse`.
unfoldable pub new_client : (Text → Option BaseUrl) → ClientConfig → Result String Client
unfolding trim_space ◌==◌ check_url
new_client parse_url cfg = url_of parse_url cfg >>= check_url cfg

pub data Endpoint : Type 0 where
  pool_stats profile rewards daily_hashrate block_rewards workers payouts : Endpoint
  -- any other string
  other_endpoint : Text → Endpoint

-- The string that an endpoint is.
abbrev pub template : Endpoint → Text
template pool_stats = codes "/stats/json/{coin}"
template profile = codes "/accounts/profile/json/{coin}"
template rewards = codes "/accounts/rewards/json/{coin}"
template daily_hashrate = codes "/accounts/hash_rate_daily/json/{group}/{coin}"
template block_rewards = codes "/accounts/block_rewards/json/{coin}"
template workers = codes "/accounts/workers/json/{coin}"
template payouts = codes "/accounts/payouts/json/{coin}"
template (other_endpoint text) = text

pub record Request : Type 0 where
  pub endpoint : Endpoint
  pub coin : Text
  pub group : Text
  pub from_date : Text
  pub to_date : Text

-- `strings.ReplaceAll` for a pattern that is not empty; `skip` bytes of an occurrence are still to go.
unfoldable pub replace : ℕ → Text → Text → Text → Text
unfolding has_prefix
replace skip [] old new = []
replace (suc skip) (c ∷ s) old new = replace skip s old new
replace zero (c ∷ s) old new =
    let cut = new ++ replace (length old - 1) s old new in
    let keep = c ∷ replace zero s old new in if has_prefix (c ∷ s) old then cut else keep

unfoldable pub replace_all : Text → Text → Text → Text
unfolding replace
replace_all s old new = replace 0 s old new

-- The template of an endpoint that has no group.
abbrev pub plain_path : Endpoint → Text → Result String Text
plain_path endpoint coin = ok (replace_all (template endpoint) (codes "{coin}") coin)

-- `clean` is `path.Clean`.
unfoldable pub endpoint_path : (Text → Text) → Endpoint → Text → Text → Result String Text
unfolding replace_all trim_space ◌==◌
endpoint_path clean daily_hashrate coin group = do
  fail_if (trim_space group == []) "Braiins daily hashrate group selector is required"
  ok (
      replace_all
        (replace_all (template daily_hashrate) (codes "{group}") (clean (trim_space group)))
        (codes "{coin}") coin)
endpoint_path clean (other_endpoint text) coin group = err "unknown Braiins API endpoint"
endpoint_path clean pool_stats coin group = plain_path pool_stats coin
endpoint_path clean profile coin group = plain_path profile coin
endpoint_path clean rewards coin group = plain_path rewards coin
endpoint_path clean block_rewards coin group = plain_path block_rewards coin
endpoint_path clean workers coin group = plain_path workers coin
endpoint_path clean payouts coin group = plain_path payouts coin

abbrev pub is_slash : ℕ → Bool
is_slash c = eqb c b'/'

unfoldable pub join_url_path : Text → Text → Text
unfolding trim_left trim_right ◌==◌
join_url_path base_path relative =
    let base = trim_right is_slash base_path in
    let rest = trim_left is_slash relative in
    if base == [] then b'/' ∷ rest else base ++ b'/' ∷ rest

-- The request that is sent, a GET: where it goes, and the headers that are set.
pub record HttpRequest : Type 0 where
  pub scheme : Text
  pub host : Text
  pub path : Text
  pub query : Map Text
  pub user_agent : Text
  pub auth_token : Option Text

-- `q.Set(key, value)` where a value is given. The query of the base URL is empty (`new_client`).
abbrev set_if : Text → Text → Map Text
set_if key value = if value == [] then [] else (key, value) ∷ []

module _ (fold clean : Text → Text)
    (is_buildable : (scheme host path : Text) (query : Map Text) → Bool) where
  -- `normalizeCoin`
  unfoldable pub normalize_coin_selector : Text → Text
  unfolding to_lower trim_space
  normalize_coin_selector coin = to_lower fold (trim_space coin)

  unfoldable pub request_to : Client → Request → Text → HttpRequest
  unfolding join_url_path ◌==◌
  request_to c req relative = record {
    scheme = c.base_url.scheme;
    host = c.base_url.host;
    path = join_url_path c.base_url.path relative;
    query = set_if (codes "from") req.from_date ++ set_if (codes "to") req.to_date;
    user_agent = codes "braiins-pool-exporter";
    auth_token = if c.token == [] then none else some c.token;
  }

  abbrev pub takes_url : HttpRequest → Bool
  takes_url r = is_buildable r.scheme r.host r.path r.query

  -- `is_buildable` says that `http.NewRequestWithContext` takes the URL. A context is always given.
  unfoldable pub new_request : Client → Request → Result String HttpRequest
  unfolding normalize_coin_selector endpoint_path request_to ◌==◌
  new_request c req = do
    let coin = normalize_coin_selector req.coin
    fail_if (coin == []) "Braiins API coin selector is required"
    relative ← endpoint_path clean req.endpoint coin req.group
    fail_if (not (takes_url (request_to c req relative))) "build Braiins API request"
    ok (request_to c req relative)

-- The requests of `PoolStats`, `Profile`, `Workers`, `Rewards` and `Payouts`.
abbrev call : Endpoint → Text → Text → Text → Request
call endpoint coin from_date to_date = record {
  endpoint = endpoint;
  coin = coin;
  group = [];
  from_date = from_date;
  to_date = to_date;
}

abbrev pub pool_stats_request : Text → Request
pool_stats_request coin = call pool_stats coin [] []

abbrev pub profile_request : Text → Request
profile_request coin = call profile coin [] []

abbrev pub workers_request : Text → Request
workers_request coin = call workers coin [] []

abbrev pub rewards_request : Text → Text → Text → Request
rewards_request coin from_date to_date = call rewards coin from_date to_date

abbrev pub payouts_request : Text → Text → Text → Request
payouts_request coin from_date to_date = call payouts coin from_date to_date
