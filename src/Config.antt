-- ===== src/Config.antt =====
-- internal/config/config.go: the configuration, as `Load` reads it and `Validate` accepts it.
pub mod Validate
pub mod Load
pub mod Laws
pub mod Tests
use braiins_pool_exporter.Base.{
  ℕ, String, Bool, true, false, not, ◌&&◌, ◌||◌, List, [], ◌∷◌, Option, none, some, eqb, ltb, ◌*◌,
  if◌then◌else◌,
}
use braiins_pool_exporter.Base.Int.{ℤ, pos, leb_ℤ, ltb_ℤ}
use braiins_pool_exporter.Base.Result.{Result, ok, err, ◌>>=◌, ◌>>◌, fail_if}
use braiins_pool_exporter.Base.Time.{Duration, second}
use braiins_pool_exporter.Text.{
  Text, codes, ◌==◌, contains, has_prefix, index_by, to_lower, trim_space,
}
use braiins_pool_exporter.Text.Numbers.{parse_int}

pub record Config : Type 0 where
  pub listen_address : Text
  pub telemetry_path : Text
  pub log_level : Text
  pub log_format : Text
  pub config_file : Text
  pub token : Text
  pub token_file : Text
  pub coin : Text
  pub api_base_url : Text
  pub poll_interval : Duration
  pub timeout : Duration
  pub worker_metrics_enabled : Bool
  pub max_workers : ℤ
  pub rewards_enabled : Bool
  pub payouts_enabled : Bool
  pub history_days : ℤ

-- `Default`
abbrev pub default_config : Config
default_config = record {
  listen_address = codes ":9108";
  telemetry_path = codes "/metrics";
  log_level = codes "info";
  log_format = codes "text";
  config_file = [];
  token = [];
  token_file = [];
  coin = codes "btc";
  api_base_url = [];
  poll_interval = pos (10 * second);
  timeout = pos (10 * second);
  worker_metrics_enabled = true;
  max_workers = pos 100;
  rewards_enabled = true;
  payouts_enabled = true;
  history_days = pos 7;
}

abbrev pub max_history_days : ℤ
max_history_days = pos 90

-- What the variables with a parser set.
pub record Values : Type 0 where
  pub poll_interval : Duration
  pub timeout : Duration
  pub worker_metrics_enabled : Bool
  pub max_workers : ℤ
  pub rewards_enabled : Bool
  pub payouts_enabled : Bool
  pub history_days : ℤ

-- What `url.Parse` finds, as far as it is looked at.
pub record Url : Type 0 where
  pub scheme : Text
  pub host : Text
  pub has_user : Bool
  pub raw_query : Text
  pub fragment : Text

-- The fields that a flag sets.
pub record Flags : Type 0 where
  pub listen_address : Text
  pub telemetry_path : Text
  pub log_level : Text
  pub log_format : Text
  pub config_file : Text

-- What the process finds outside: the environment, the files, the flags (with the number of arguments
-- that are left), and what the standard library parses.
pub record Environment : Type 0 where
  pub lookup_env : Text → Option Text
  pub read_file : Text → Option Text
  pub parse_flags : Flags → Option (Flags × ℕ)
  pub parse_duration : Text → Option Duration
  pub parse_bool : Text → Option Bool
  pub split_port : Text → Option Text
  pub parse_url : Text → Option Url

unfoldable pub is_blank : Text → Bool
unfolding ◌==◌ trim_space
is_blank text = trim_space text == []

-- What `durationEnv`, `boolEnv` and `intEnv` do, up to the parser.
unfoldable pub value_env :
    {A : Type 0} → (Text → Option A) → String → Option Text → A → Result String A
unfolding is_blank trim_space
value_env parse message none fallback = ok fallback
value_env parse message (some value) fallback =
    if is_blank value
    then ok fallback
    else elim (parse (trim_space value)) [ none ↦ err message | some a ↦ ok a ]

-- `envValue`
unfoldable pub env_value : Option Text → Text
unfolding trim_space
env_value none = []
env_value (some value) = trim_space value

abbrev pub default_flags : Flags
default_flags = record {
  listen_address = default_config.listen_address;
  telemetry_path = default_config.telemetry_path;
  log_level = default_config.log_level;
  log_format = default_config.log_format;
  config_file = [];
}

pub record SafeSummary : Type 0 where
  pub listen_address : Text
  pub telemetry_path : Text
  pub log_level : Text
  pub log_format : Text
  pub token_source : Text
  pub coin : Text
  pub poll_interval : Duration
  pub timeout : Duration
  pub worker_metrics : Bool
  pub max_workers : ℤ
  pub rewards : Bool
  pub payouts : Bool
  pub history_days : ℤ

unfoldable pub token_source : Config → Text
unfolding ◌==◌
token_source c =
    if not (c.token_file == [])
    then codes "file"
    else if not (c.token == [])
    then codes "environment"
    else codes "none"

unfoldable pub summary : Config → SafeSummary
unfolding token_source
summary c = record {
  listen_address = c.listen_address;
  telemetry_path = c.telemetry_path;
  log_level = c.log_level;
  log_format = c.log_format;
  token_source = token_source c;
  coin = c.coin;
  poll_interval = c.poll_interval;
  timeout = c.timeout;
  worker_metrics = c.worker_metrics_enabled;
  max_workers = c.max_workers;
  rewards = c.rewards_enabled;
  payouts = c.payouts_enabled;
  history_days = c.history_days;
}
