-- ===== src/Config/Load.antt =====
-- `Load`, from the flags and the variables to a configuration that is valid.
use braiins_pool_exporter.Base.{
  ℕ, String, Bool, not, ◌&&◌, [], Option, none, some, eqb, if◌then◌else◌,
}
use braiins_pool_exporter.Base.Int.{ℤ}
use braiins_pool_exporter.Base.Result.{Result, ok, err, ◌>>=◌, ◌>>◌, fail_if}
use braiins_pool_exporter.Base.Time.{Duration}
use braiins_pool_exporter.Text.{Text, codes, ◌==◌, to_lower, trim_space}
use braiins_pool_exporter.Text.Numbers.{parse_int}
use braiins_pool_exporter.Config.{
  Config, Environment, Flags, Values, default_config, default_flags, value_env, env_value,
}
use braiins_pool_exporter.Config.Validate.{validate}

module _ (env : Environment) (fold : Text → Text) where
  -- The error of the three is known by the name of the variable, which its text begins with.
  unfoldable pub duration_env : String → Duration → Result String Duration
  unfolding value_env
  duration_env name fallback =
      value_env env.parse_duration name (env.lookup_env (codes name)) fallback

  unfoldable pub bool_env : String → Bool → Result String Bool
  unfolding value_env
  bool_env name fallback = value_env env.parse_bool name (env.lookup_env (codes name)) fallback

  unfoldable pub int_env : String → ℤ → Result String ℤ
  unfolding value_env parse_int
  int_env name fallback = value_env parse_int name (env.lookup_env (codes name)) fallback

  -- The token in a file that was read.
  unfoldable pub file_token : Text → Option Text → Result String (Text × Text)
  unfolding ◌==◌ trim_space
  file_token file none = err "read Braiins token file"
  file_token file (some content) = do
    fail_if (trim_space content == []) "Braiins token file is empty"
    ok (trim_space content, file)

  -- The token and the file that it stands in, from the two variables. One that is blank counts as one
  -- that is not set.
  unfoldable pub load_token : Option Text → Option Text → Result String (Text × Text)
  unfolding env_value ◌==◌ file_token
  load_token token token_file =
      if not (env_value token == []) && not (env_value token_file == [])
      then err
          "conflicting Braiins token sources: set only BRAIINS_POOL_TOKEN or BRAIINS_POOL_TOKEN_FILE"
      else if env_value token_file == []
      then ok (env_value token, [])
      else file_token (env_value token_file) (env.read_file (env_value token_file))

  unfoldable pub load_coin : Text → Text
  unfolding ◌==◌ to_lower
  load_coin value = if value == [] then default_config.coin else to_lower fold value

  abbrev pub or_parse_error : Option (Flags × ℕ) → Result String (Flags × ℕ)
  or_parse_error none = err "parse flags"
  or_parse_error (some parsed) = ok parsed

  -- The variables that have a parser, in order.
  unfoldable pub load_values : Result String Values
  unfolding duration_env bool_env int_env
  load_values = do
    poll_interval ← duration_env "BRAIINS_POOL_POLL_INTERVAL" default_config.poll_interval
    timeout ← duration_env "BRAIINS_POOL_TIMEOUT" default_config.timeout
    workers ← bool_env "BRAIINS_POOL_WORKER_METRICS_ENABLED" default_config.worker_metrics_enabled
    max_workers ← int_env "BRAIINS_POOL_MAX_WORKERS" default_config.max_workers
    rewards ← bool_env "BRAIINS_POOL_REWARDS_ENABLED" default_config.rewards_enabled
    payouts ← bool_env "BRAIINS_POOL_PAYOUTS_ENABLED" default_config.payouts_enabled
    history_days ← int_env "BRAIINS_POOL_HISTORY_DAYS" default_config.history_days
    ok (record {
      poll_interval = poll_interval;
      timeout = timeout;
      worker_metrics_enabled = workers;
      max_workers = max_workers;
      rewards_enabled = rewards;
      payouts_enabled = payouts;
      history_days = history_days;
    })

  unfoldable pub assemble : Flags → Text × Text → Values → Config
  unfolding load_coin env_value
  assemble flags (token, token_file) values = record {
    listen_address = flags.listen_address;
    telemetry_path = flags.telemetry_path;
    log_level = flags.log_level;
    log_format = flags.log_format;
    config_file = flags.config_file;
    token = token;
    token_file = token_file;
    coin = load_coin (env_value (env.lookup_env (codes "BRAIINS_POOL_COIN")));
    api_base_url = env_value (env.lookup_env (codes "BRAIINS_POOL_API_BASE_URL"));
    poll_interval = values.poll_interval;
    timeout = values.timeout;
    worker_metrics_enabled = values.worker_metrics_enabled;
    max_workers = values.max_workers;
    rewards_enabled = values.rewards_enabled;
    payouts_enabled = values.payouts_enabled;
    history_days = values.history_days;
  }

  unfoldable pub checked : Config → Result String Config
  unfolding validate
  checked c = do validate env fold c; ok c

  unfoldable pub load : Result String Config
  unfolding load_token load_values assemble checked ◌==◌
  load = do
    (flags, left) ← or_parse_error (env.parse_flags default_flags)
    fail_if (not (eqb left 0)) "unexpected positional arguments"
    fail_if (not (flags.config_file == [])) "--config.file is reserved until its format is defined"
    kept ←
        load_token (env.lookup_env (codes "BRAIINS_POOL_TOKEN"))
          (env.lookup_env (codes "BRAIINS_POOL_TOKEN_FILE"))
    values ← load_values
    checked (assemble flags kept values)
