-- ===== src/Config/Laws.antt =====
-- What a configuration that `Load` returns holds, and what its summary hides.
use braiins_pool_exporter.Base.{
  true, false, not, ◌≡◌, ◌≢◌, refl, ◌⊎◌, inl, inr, [], ◌∷◌, Option, none, some, arith, eqb,
  not-false, Bool-cases,
}
use braiins_pool_exporter.Base.Int.{pos, leb_ℤ, ◌≤ℤ◌}
use braiins_pool_exporter.Base.Result.{ok, >>=-eq-ok, fail_if-ok, ok-injective}
use braiins_pool_exporter.Text.{Text, codes, ◌==◌, contains, has_prefix, to_lower, trim_space}
use braiins_pool_exporter.Text.Laws.{==_iff}
use braiins_pool_exporter.Config.{
  Config, Environment, env_value, default_flags, summary, token_source,
}
use braiins_pool_exporter.Config.Validate.{
  validate, validate_listen_address, bad_path, reserved_path, bad_level, bad_format, bad_days,
  bad_coin,
}
use braiins_pool_exporter.Config.Load.{
  file_token, load_token, load, load_values, assemble, checked, or_parse_error,
}

module _ (env : Environment) (fold : Text → Text) where
  -- The bounds that the program relies on.
  pub record IsValid (c : Config) : Type 0 where
    pub path : has_prefix c.telemetry_path (codes "/") ≡ true
    pub own_path :
        contains (codes "/-/healthy" ∷ codes "/-/ready" ∷ codes "/version" ∷ []) c.telemetry_path
        ≡ false
    pub level :
        contains (codes "debug" ∷ codes "info" ∷ codes "warn" ∷ codes "error" ∷ []) c.log_level
        ≡ true
    pub format : contains (codes "text" ∷ codes "json" ∷ []) c.log_format ≡ true
    pub interval : pos 1 ≤ℤ c.poll_interval
    pub timeout : pos 1 ≤ℤ c.timeout
    pub workers : pos 1 ≤ℤ c.max_workers
    pub some_days : pos 1 ≤ℤ c.history_days
    pub few_days : c.history_days ≤ℤ pos 90
    pub coin : (to_lower fold (trim_space c.coin) == codes "btc") ≡ true

  validate-IsValid : (c : Config) → validate env fold c ≡ ok tt → IsValid c
  unfolding validate
  validate-IsValid c h =
      let (_, _, h1) = >>=-eq-ok (validate_listen_address env fold c.listen_address) _ h in
      let (path, h2) =
        fail_if-ok (bad_path env fold c)
          "web telemetry path must be an absolute URL path without a query or fragment" _ h1 in
      let (own, h3) =
        fail_if-ok (reserved_path env fold c)
          "web telemetry path conflicts with a reserved endpoint" _ h2 in
      let (level, h4) =
        fail_if-ok (bad_level env fold c) "log level must be debug, info, warn, or error" _ h3 in
      let (format, h5) =
        fail_if-ok (bad_format env fold c) "log format must be text or json" _ h4 in
      let (interval, h6) =
        fail_if-ok (leb_ℤ c.poll_interval (pos 0)) "Braiins poll interval must be positive" _ h5 in
      let (timeout, h7) =
        fail_if-ok (leb_ℤ c.timeout (pos 0)) "Braiins request timeout must be positive" _ h6 in
      let (workers, h8) =
        fail_if-ok (leb_ℤ c.max_workers (pos 0)) "Braiins max workers must be positive" _ h7 in
      let (days, h9) =
        fail_if-ok (bad_days env fold c) "Braiins history window must be between 1 and 90 days" _
          h8 in
      let (coin, _) = fail_if-ok (bad_coin env fold c) "Braiins coin selector must be btc" _ h9 in
      record {
        path = ground arith;
        own_path = own;
        level = not-false _ level;
        format = not-false _ format;
        interval = ground arith;
        timeout = ground arith;
        workers = ground arith;
        some_days = ground arith;
        few_days = ground arith;
        coin = not-false _ coin;
      }

  -- The two variables give a token and its file, as a configuration keeps them.
  abbrev pub IsSource : Text → Text → Text × Text → Type 0
  IsSource token file (kept, kept_file) =
      ((file ≡ []) × (kept ≡ token) × (kept_file ≡ []))
      ⊎ ((token ≡ [])
          × (file ≢ [])
          × ((content : Text) × (env.read_file file ≡ some content)
              × (kept ≡ trim_space content)
              × (kept ≢ [])
              × (kept_file ≡ file)))

  ==_nil : (t : Text) → (t == []) ≡ false → t ≢ []
  unfolding ◌==◌
  ==_nil [] h e = cc
  ==_nil (b ∷ t) h e = cc

  file_token-IsSource :
      (file : Text) (read : Option Text) (kept : Text × Text)
      → env.read_file file ≡ read
      → file ≢ []
      → file_token env fold file read ≡ ok kept
      → IsSource [] file kept
  unfolding file_token
  file_token-IsSource file none kept e nonblank h = cc
  file_token-IsSource file (some content) kept e nonblank h =
      let (filled, h1) = fail_if-ok (trim_space content == []) "Braiins token file is empty" _ h in
      let same : (trim_space content, file) ≡ kept = ok-injective h1 in
      rw (← same)
        (inr (refl, nonblank, (content, e, refl, ==_nil (trim_space content) filled, refl)))

  load_token-IsSource :
      (token file : Option Text) (kept : Text × Text)
      → load_token env fold token file ≡ ok kept
      → IsSource (env_value token) (env_value file) kept
  unfolding load_token
  load_token-IsSource token file kept h = elim (Bool-cases (env_value file == [])) [
    | inl no_file ↦ elim (Bool-cases (env_value token == [])) [
      | inl no_token ↦
          let same : (env_value token, []) ≡ kept = ok-injective (rw (no_token, no_file) at h) in
          rw (← same) (inl ((==_iff (env_value file) []).0 no_file, refl, refl))
      | inr a_token ↦
          let same : (env_value token, []) ≡ kept = ok-injective (rw (a_token, no_file) at h) in
          rw (← same) (inl ((==_iff (env_value file) []).0 no_file, refl, refl))
    ]
    | inr a_file ↦ elim (Bool-cases (env_value token == [])) [
      | inl no_token ↦ rw ((==_iff (env_value token) []).0 no_token) (
          file_token-IsSource (env_value file) _ kept refl (==_nil _ a_file)
            (rw (no_token, a_file) at h))
      | inr a_token ↦ let clash = rw (a_token, a_file) at h in cc clash
    ]
  ]

  checked-IsValid : (c kept : Config) → checked env fold c ≡ ok kept → IsValid kept × (c ≡ kept)
  unfolding checked
  checked-IsValid c kept h =
      let (_, valid, h1) = >>=-eq-ok (validate env fold c) _ h in
      let same : c ≡ kept = ok-injective h1 in (rw (← same) (validate-IsValid c valid), same)

  -- A configuration that is loaded has a telemetry path of its own, positive intervals and limits and
  -- at most 90 days of history. Its token is that of the one variable, or the text of the file that the
  -- other one names, never of both, and is not blank where a file is named.
  pub load-IsValid :
      (c : Config)
      → load env fold ≡ ok c
      → IsValid c
        × IsSource
            (env_value (env.lookup_env (codes "BRAIINS_POOL_TOKEN")))
            (env_value (env.lookup_env (codes "BRAIINS_POOL_TOKEN_FILE")))
            (c.token, c.token_file)
  unfolding load assemble
  load-IsValid c h =
      let ((flags, left), _, h1) =
        >>=-eq-ok (or_parse_error env fold (env.parse_flags default_flags)) _ h in
      let (_, h2) = fail_if-ok (not (eqb left 0)) "unexpected positional arguments" _ h1 in
      let (_, h3) =
        fail_if-ok (not (flags.config_file == []))
          "--config.file is reserved until its format is defined" _ h2 in
      let (kept, source, h4) =
        >>=-eq-ok
          (load_token env fold (env.lookup_env (codes "BRAIINS_POOL_TOKEN"))
            (env.lookup_env (codes "BRAIINS_POOL_TOKEN_FILE")))
          _ h3 in
      let (values, _, h5) = >>=-eq-ok (load_values env fold) _ h4 in
      let (valid, same) = checked-IsValid (assemble env fold flags kept values) c h5 in
      (
        valid,
        rw (← same) (
            load_token-IsSource (env.lookup_env (codes "BRAIINS_POOL_TOKEN"))
              (env.lookup_env (codes "BRAIINS_POOL_TOKEN_FILE")) kept source),
      )

-- Two configurations that differ only in a token and its file, and name them or not alike, have one
-- summary: it tells nothing of a token but where it comes from.
pub summary_hides :
    (c d : Config)
    → d ≡ record c { token = d.token; token_file = d.token_file }
    → (d.token == []) ≡ (c.token == [])
    → (d.token_file == []) ≡ (c.token_file == [])
    → summary d ≡ summary c
unfolding summary token_source
summary_hides c d e ht hf = rw e (rw (ht, hf) refl)
