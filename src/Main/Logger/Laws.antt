-- ===== src/Main/Logger/Laws.antt =====
-- What `run` sets up under a valid configuration.
use braiins_pool_exporter.Base.{arith, ◌≡◌, sym, inl, inr, true, false, [], ◌∷◌, Bool-cases}
use braiins_pool_exporter.Text.{Text, codes, ◌==◌, contains}
use braiins_pool_exporter.Text.Laws.{==_iff}
use braiins_pool_exporter.Config.{Config, Environment}
use braiins_pool_exporter.Config.Laws.{IsValid}
use braiins_pool_exporter.Main.Logger.{
  LogLevel, debug, info, warn, error, LogHandler, json_handler, text_handler, new_logger,
  slog_level,
}

-- The names that a configuration gives them.
abbrev level_name : LogLevel → Text
level_name debug = codes "debug"
level_name info = codes "info"
level_name warn = codes "warn"
level_name error = codes "error"

abbrev format_name : LogHandler → Text
format_name json_handler = codes "json"
format_name text_handler = codes "text"

-- Of the four names one is left.
last_level :
    (level : Text)
    → (level == codes "debug") ≡ false
    → (level == codes "warn") ≡ false
    → (level == codes "error") ≡ false
    → contains (codes "debug" ∷ codes "info" ∷ codes "warn" ∷ codes "error" ∷ []) level ≡ true
    → level ≡ codes "info"
unfolding contains
last_level level a b c h = (==_iff level (codes "info")).0 (ground (arith, a, b, c, h))

slog_level-named :
    (level : Text)
    → contains (codes "debug" ∷ codes "info" ∷ codes "warn" ∷ codes "error" ∷ []) level ≡ true
    → level_name (slog_level level) ≡ level
unfolding slog_level contains
slog_level-named level h = elim (Bool-cases (level == codes "debug")) [
  | inl yes_debug ↦ rw yes_debug (sym ((==_iff level _).0 yes_debug))
  | inr a ↦ elim (Bool-cases (level == codes "warn")) [
    | inl yes_warn ↦ rw (a, yes_warn) (sym ((==_iff level _).0 yes_warn))
    | inr b ↦ elim (Bool-cases (level == codes "error")) [
      | inl yes_error ↦ rw (a, b, yes_error) (sym ((==_iff level _).0 yes_error))
      | inr c ↦ rw (a, b, c) (sym (last_level level a b c h))
    ]
  ]
]

new_logger-format :
    (level format : Text)
    → contains (codes "text" ∷ codes "json" ∷ []) format ≡ true
    → format_name (new_logger level format).handler ≡ format
unfolding new_logger contains
new_logger-format level format h = elim (Bool-cases (format == codes "json")) [
  | inl json ↦ rw json (sym ((==_iff format _).0 json))
  | inr plain ↦
      let named : format == codes "text" ≡ true = ground (arith, plain, h) in
      rw plain (sym ((==_iff format _).0 named))
]

-- Under a valid configuration the logger has the level and the format that the configuration names.
pub new_logger-named :
    (env : Environment) (fold : Text → Text) (c : Config)
    → IsValid env fold c
    → let logger = new_logger c.log_level c.log_format in
      (level_name logger.level ≡ c.log_level) × (format_name logger.handler ≡ c.log_format)
unfolding new_logger
new_logger-named env fold c valid = (
  slog_level-named c.log_level valid.level,
  new_logger-format c.log_level c.log_format valid.format,
)
