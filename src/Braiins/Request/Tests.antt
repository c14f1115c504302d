-- ===== src/Braiins/Request/Tests.antt =====
-- The theorems on requests and on redaction at concrete inputs, and runs of the functions.
use braiins_pool_exporter.Base.{
  ℕ, String, ◌*◌, ◌≡◌, refl, ◌≢◌, inl, inr, Bool, true, false, [], ◌∷◌, ◌++◌, Option, none, some,
  arith, eqb, if◌then◌else◌, length, drop, Bool-cases,
}
use braiins_pool_exporter.Base.Int.{pos}
use braiins_pool_exporter.Base.Result.{Result, ok, err}
use braiins_pool_exporter.Base.Time.{second}
use braiins_pool_exporter.Text.{
  Text, Map, codes, ◌==◌, trim_space, trim_left, trim_right, is_ascii, to_lower, lower_byte,
  has_prefix,
}
use braiins_pool_exporter.Text.Laws.{all_pass}
use braiins_pool_exporter.Braiins.Backoff.{normalize_retry_policy}
use braiins_pool_exporter.Braiins.Retry.{World, do_json}
use braiins_pool_exporter.Braiins.Redact.{
  text, panics, unfinished, index, search_from, cut_query, query_loop, value_start, cut_header,
  header_loop, redact_each, redact_header_value, redact_query_secrets, safe_transport_error, span,
}
use braiins_pool_exporter.Braiins.Redact.Laws.{safe_transport_error_ends}
use braiins_pool_exporter.Braiins.Redact.Hides.{query_loop-hides}
use braiins_pool_exporter.Braiins.Request.{
  BaseUrl, ClientConfig, Client, new_client, check_url, replace, replace_all, endpoint_path,
  join_url_path, HttpRequest, normalize_coin_selector, request_to, new_request, workers_request,
  is_slash,
}
use braiins_pool_exporter.Braiins.Request.Laws.{
  IsSafe, new_client-IsSafe, of_workers, seen, with_token, new_request-path, new_request-token,
}
use braiins_pool_exporter.Braiins.Request.Once.{
  SendError, Response, read_body, receive, sent, do_json_once,
}
use braiins_pool_exporter.Braiins.Request.Sent.{refused, Explained, sent-Explained}
use braiins_pool_exporter.Braiins.Request.Attempts.{
  IsTransient, Brings, do_json-IsTransient, do_json-Brings,
}
use braiins_pool_exporter.Braiins.Tests.{whole_numbers, no_dates, policy, policy-IsNormal}

-- A text that is not ASCII is left as it is by `strings.Map`.
abbrev pub same_text : Text → Text
same_text s = s

abbrev pub any_url : (scheme host path : Text) (query : Map Text) → Bool
any_url scheme host path query = true

abbrev pool_url : BaseUrl
pool_url = record {
  scheme = codes "https";
  host = codes "pool.test";
  path = codes "/api/";
  has_user = false;
  raw_query = [];
  fragment = [];
}

abbrev pub config : ClientConfig
config = record {
  base_url = codes " https://pool.test/api/ ";
  token = codes "secret";
  timeout = pos 0;
  retry = policy;
}

abbrev pub parse : Text → Option BaseUrl
parse s = if s == codes "https://pool.test/api/" then some pool_url else none

abbrev pub client : Client
client = record {
  base_url = pool_url;
  token = codes "secret";
  timeout = pos (10 * second);
  retry = policy;
}

pub client_run : new_client parse config ≡ ok client
unfolding new_client check_url trim_space ◌==◌ normalize_retry_policy
client_run = refl

new_client-IsSafe_example : IsSafe client
new_client-IsSafe_example = new_client-IsSafe parse config client client_run

abbrev workers_get : HttpRequest
workers_get = record {
  scheme = codes "https";
  host = codes "pool.test";
  path = codes "/api/accounts/workers/json/btc";
  query = [];
  user_agent = codes "braiins-pool-exporter";
  auth_token = some (codes "secret");
}

pub workers_run :
    new_request same_text same_text any_url client (workers_request (codes " BTC "))
    ≡ ok workers_get
unfolding new_request normalize_coin_selector endpoint_path replace_all replace request_to
    join_url_path trim_space trim_left trim_right to_lower is_ascii lower_byte has_prefix ◌==◌
workers_run = refl

new_request-path_example :
    let coin = normalize_coin_selector same_text same_text any_url (codes " BTC ") in
    (coin ≢ [])
    × (workers_get.scheme ≡ codes "https")
    × (workers_get.host ≡ codes "pool.test")
    × (workers_get.path
        ≡ trim_right is_slash (codes "/api/") ++ b'/' ∷ (codes "accounts/workers/json/" ++ coin))
    × (workers_get.auth_token ≡ (if codes "secret" == [] then none else some (codes "secret")))
new_request-path_example =
    new_request-path same_text same_text any_url client (workers_request (codes " BTC "))
      (codes "accounts/workers/json/") workers_get of_workers workers_run

new_request-token_example :
    seen (
      new_request same_text same_text any_url
        (with_token client (codes "one"))
        (workers_request (codes "btc")))
    ≡ seen (
        new_request same_text same_text any_url
          (with_token client [])
          (workers_request (codes "btc")))
new_request-token_example =
    new_request-token same_text same_text any_url client (codes "one") []
      (workers_request (codes "btc"))

-- A body is decoded to its length.
abbrev pub measure : Text → Option ℕ
measure body = some (length body)

abbrev response : ℕ → Text → Response
response status_code body = record {
  status_code = status_code;
  content_type = codes "application/json";
  retry_after = [];
  body = body;
  failure = none;
}

sent-Explained_example :
    Explained same_text measure
      (ok (response 200 (codes "{}")))
      (sent same_text measure (ok (response 200 (codes "{}"))))
sent-Explained_example = sent-Explained same_text measure (ok (response 200 (codes "{}")))

-- The server is busy, and then answers.
abbrev pub server : ℕ → HttpRequest → Result SendError Response
server k request = if eqb k 1 then ok (response 503 []) else ok (response 200 (codes "{}"))

abbrev pub busy : World ℕ
busy = record {
  outcome = λ k. if eqb k 1 then err (refused same_text measure (response 503 [])) else ok 2;
  ctx_err = λ k. none;
  now = λ k. pos 0;
  sleep = λ k d. none;
}

pub busy_outcomes :
    (k : ℕ) → do_json_once same_text measure (server k) (ok workers_get) ≡ some (busy.outcome k)
unfolding do_json_once sent receive read_body
busy_outcomes k = elim (Bool-cases (eqb k 1)) [
  | inl first ↦ rw first refl
  | inr later ↦ rw later refl
]

busy_run : (do_json no_dates whole_numbers policy busy).attempts ≡ 2
unfolding do_json
busy_run = refl

do_json-IsTransient_example :
    (request : HttpRequest) × (◌≡◌ {A = Result String HttpRequest} (ok workers_get) (ok request))
    × IsTransient same_text measure (server 1 request)
unfolding do_json
do_json-IsTransient_example =
    do_json-IsTransient same_text measure no_dates whole_numbers policy busy server (ok workers_get)
      policy-IsNormal busy_outcomes 1 (omega arith) (omega arith)

do_json-Brings_example : Brings same_text measure (server 2) (ok workers_get) 2
unfolding do_json
do_json-Brings_example =
    do_json-Brings same_text measure no_dates whole_numbers policy busy server (ok workers_get)
      policy-IsNormal busy_outcomes 2 refl

safe_transport_error_ends_example : safe_transport_error same_text (codes "auth=x") ≢ unfinished
safe_transport_error_ends_example = safe_transport_error_ends same_text (codes "auth=x")

query_loop-hides_example :
    query_loop same_text 40 (codes "token=") (codes "GET /?Token=abc&x=1") 0
    ≡ query_loop same_text 40 (codes "token=") (codes "GET /?Token=defgh&x=1") 0
unfolding index has_prefix lower_byte is_ascii all_pass
query_loop-hides_example =
    query_loop-hides same_text 40 (codes "token=") (codes "GET /?Token=") (codes "abc")
      (codes "defgh") (codes "&x=1") (omega arith) refl refl refl refl refl refl

redaction_run :
    safe_transport_error same_text (codes "Get /?api_key=k1&x=1 auth=k2: Pool-Auth-Token: k3")
    ≡ text (codes "Get /?api_key=<redacted>&x=1 auth=<redacted> Pool-Auth-Token=<redacted>")
unfolding safe_transport_error redact_header_value redact_query_secrets redact_each header_loop
    query_loop search_from cut_header cut_query value_start span index to_lower is_ascii lower_byte
    has_prefix
redaction_run = refl

-- The value of a header ends at the first space, so a scheme is hidden and its credential is not.
bearer_run :
    safe_transport_error same_text (codes "Authorization: Bearer k1")
    ≡ text (codes "Authorization=<redacted> k1")
unfolding safe_transport_error redact_header_value redact_query_secrets redact_each header_loop
    query_loop search_from cut_header cut_query value_start span index to_lower is_ascii lower_byte
    has_prefix
bearer_run = refl

-- The capital letter at code point 570 has two bytes and its small letter three, so the places behind
-- it that are found in lower case are off by one in the text.
abbrev wide : Text
wide = 200 ∷ 186 ∷ []

abbrev widen : Text → Text
widen s = if has_prefix s wide then 226 ∷ 177 ∷ 165 ∷ drop 2 s else s

-- The mark stands behind the value.
wide_run :
    safe_transport_error widen (wide ++ codes "token=k") ≡ text (wide ++ codes "token=k<redacted>")
unfolding safe_transport_error redact_header_value redact_query_secrets redact_each header_loop
    query_loop search_from cut_header cut_query value_start span index to_lower is_ascii lower_byte
    has_prefix
wide_run = refl

wide_panics : safe_transport_error widen (wide ++ codes "token=") ≡ panics
unfolding safe_transport_error redact_header_value redact_query_secrets redact_each header_loop
    query_loop search_from cut_header cut_query value_start span index to_lower is_ascii lower_byte
    has_prefix
wide_panics = refl
