-- ===== src/Config/Validate.antt =====
-- `Validate` and `validateListenAddress`.
use braiins_pool_exporter.Base.{
  ℕ, String, Bool, true, false, not, ◌&&◌, ◌||◌, [], ◌∷◌, Option, none, some, eqb, if◌then◌else◌,
}
use braiins_pool_exporter.Base.Int.{ℤ, pos, leb_ℤ, ltb_ℤ}
use braiins_pool_exporter.Base.Result.{Result, ok, err, ◌>>◌, fail_if}
use braiins_pool_exporter.Text.{
  Text, codes, ◌==◌, contains, has_prefix, index_by, to_lower, trim_space,
}
use braiins_pool_exporter.Text.Numbers.{parse_int}
use braiins_pool_exporter.Config.{Config, Environment, Url, max_history_days}

module _ (env : Environment) (fold : Text → Text) where
  unfoldable pub port_error : Option ℤ → Result String (Unit {0})
  port_error none = err "web listen address contains an invalid port"
  port_error (some n) =
      fail_if (ltb_ℤ n (pos 0) || ltb_ℤ (pos 65535) n) "web listen address contains an invalid port"

  unfoldable pub validate_listen_address : Text → Result String (Unit {0})
  unfolding parse_int port_error
  validate_listen_address address = elim (env.split_port address) [
    | none ↦ err "web listen address must be in host:port form"
    | some port ↦ port_error (parse_int port)
  ]

  unfoldable pub url_error : Option Url → Result String (Unit {0})
  unfolding ◌==◌
  url_error none = err "Braiins API base URL must be an absolute URL"
  url_error (some u) = do
    fail_if (u.scheme == [] || u.host == []) "Braiins API base URL must be an absolute URL"
    fail_if (not (u.scheme == codes "https") && not (u.scheme == codes "http"))
        "Braiins API base URL must use HTTP or HTTPS"
    fail_if (u.has_user || not (u.raw_query == []) || not (u.fragment == []))
        "Braiins API base URL must not contain credentials, a query, or a fragment"

  unfoldable pub validate_url : Text → Result String (Unit {0})
  unfolding ◌==◌ url_error
  validate_url text = if text == [] then ok tt else url_error (env.parse_url text)

  abbrev is_some : Option ℕ → Bool
  is_some none = false
  is_some (some n) = true

  abbrev pub bad_path : Config → Bool
  bad_path c =
      not (has_prefix c.telemetry_path (codes "/"))
      || is_some (index_by (λ b. eqb b b'?' || eqb b b'#') c.telemetry_path)

  abbrev pub reserved_path : Config → Bool
  reserved_path c =
      contains (codes "/-/healthy" ∷ codes "/-/ready" ∷ codes "/version" ∷ []) c.telemetry_path

  abbrev pub bad_level : Config → Bool
  bad_level c =
      not (contains (codes "debug" ∷ codes "info" ∷ codes "warn" ∷ codes "error" ∷ []) c.log_level)

  abbrev pub bad_format : Config → Bool
  bad_format c = not (contains (codes "text" ∷ codes "json" ∷ []) c.log_format)

  abbrev pub bad_days : Config → Bool
  bad_days c = leb_ℤ c.history_days (pos 0) || ltb_ℤ max_history_days c.history_days

  abbrev pub bad_coin : Config → Bool
  bad_coin c = not (to_lower fold (trim_space c.coin) == codes "btc")

  unfoldable pub validate : Config → Result String (Unit {0})
  unfolding validate_listen_address validate_url contains has_prefix index_by to_lower trim_space
      ◌==◌
  validate c = do
    validate_listen_address c.listen_address
    fail_if (bad_path c)
        "web telemetry path must be an absolute URL path without a query or fragment"
    fail_if (reserved_path c) "web telemetry path conflicts with a reserved endpoint"
    fail_if (bad_level c) "log level must be debug, info, warn, or error"
    fail_if (bad_format c) "log format must be text or json"
    fail_if (leb_ℤ c.poll_interval (pos 0)) "Braiins poll interval must be positive"
    fail_if (leb_ℤ c.timeout (pos 0)) "Braiins request timeout must be positive"
    fail_if (leb_ℤ c.max_workers (pos 0)) "Braiins max workers must be positive"
    fail_if (bad_days c) "Braiins history window must be between 1 and 90 days"
    fail_if (bad_coin c) "Braiins coin selector must be btc"
    validate_url c.api_base_url
