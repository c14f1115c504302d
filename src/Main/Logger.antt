-- ===== src/Main/Logger.antt =====
-- cmd/braiins-pool-exporter/main.go: `newLogger`. What a logger does with a record is package slog's.
pub mod Laws
use braiins_pool_exporter.Base.{if◌then◌else◌}
use braiins_pool_exporter.Text.{Text, codes, ◌==◌}

pub data LogLevel : Type 0 where
  debug info warn error : LogLevel

pub data LogHandler : Type 0 where
  json_handler text_handler : LogHandler

pub record Logger : Type 0 where
  pub level : LogLevel
  pub handler : LogHandler

unfoldable pub slog_level : Text → LogLevel
unfolding ◌==◌
slog_level level =
    if level == codes "debug"
    then debug
    else if level == codes "warn"
    then warn
    else if level == codes "error"
    then error
    else info

unfoldable pub new_logger : (level format : Text) → Logger
unfolding slog_level ◌==◌
new_logger level format = record {
  level = slog_level level;
  handler = if format == codes "json" then json_handler else text_handler;
}
