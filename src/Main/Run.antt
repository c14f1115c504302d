-- ===== src/Main/Run.antt =====
-- cmd/braiins-pool-exporter/main.go: what `run` sets up from a configuration, and its life from there
-- to its end, with the constructors of the collectors (`NewPoolMetrics`, `NewAccountMetrics`,
-- `NewWorkerMetrics` and `NewHistoryMetrics`).
pub mod Laws
pub mod Tests
use braiins_pool_exporter.Base.{
  String, Bool, true, false, not, ◌&&◌, ◌||◌, List, [], ◌∷◌, ◌++◌, Option, none, some, ◌*◌,
  if◌then◌else◌,
}
use braiins_pool_exporter.Base.Int.{ℤ, pos, leb_ℤ}
use braiins_pool_exporter.Base.Result.{Result, ok, err}
use braiins_pool_exporter.Text.{Text, ◌==◌}
use braiins_pool_exporter.Config.{Config}
use braiins_pool_exporter.Braiins.Request.{BaseUrl, ClientConfig, Client, new_client}
use braiins_pool_exporter.Collector.Pool.{normalize_coin}
use braiins_pool_exporter.Collector.Workers.{worker_limit}
use braiins_pool_exporter.Collector.History.Poll.{window_days}
use braiins_pool_exporter.Main.{PollStep, poll_steps}

-- What the collectors keep of their options. The client is always given.
pub record Collectors : Type 0 where
  pub coin : Text
  pub max_workers : ℤ
  pub history_days : ℤ

unfoldable pub new_collectors : (Text → Text) → Config → Collectors
unfolding normalize_coin worker_limit window_days
new_collectors fold c = record {
  coin = normalize_coin fold c.coin;
  max_workers = worker_limit c.max_workers;
  history_days = window_days c.history_days;
}

-- `braiins.Config{BaseURL, Token, Timeout}`: the policy has its zero value.
abbrev pub client_config : Config → ClientConfig
client_config c = record {
  base_url = c.api_base_url;
  token = c.token;
  timeout = c.timeout;
  retry = record {
    max_attempts = pos 0;
    initial_backoff = pos 0;
    max_backoff = pos 0;
    rate_limit_backoff = pos 0;
  };
}

-- What `run` does to the rest of the process. `serve_ends` is the end of `Serve`, which closes its
-- listener; `await_polls` is the second select, and says whether `pollDone` came before the time limit.
pub data Action : Type 0 where
  require_account listen serve serve_ends stop_polling shut_down : Action
  set_ready await_polls : Bool → Action
  start_polls : List PollStep → Action

-- What the first select gets: a signal, or the end of `Serve`.
pub data Ending : Type 0 where
  signalled : Ending
  served : Option String → Ending

-- What the process meets. `ends_early` says that `Serve` has ended by itself when the first select
-- gets a signal, and `polls_in_time` that the polls end within the time limit of the shutdown.
-- `shut_down` is the error of `Shutdown`, where it is not that of a canceled context, and `serve` that
-- of `Serve`, which is taken behind it.
pub record World : Type 0 where
  pub can_listen : Bool
  pub ending : Ending
  pub ends_early : Bool
  pub polls_in_time : Bool
  pub shut_down : Option String
  pub serve : Option String

abbrev error_or : Option String → String → Result String (Unit {0}) → Result String (Unit {0})
error_or none message next = next
error_or (some cause) message next = err message

abbrev end_of_serve : Bool → List Action
end_of_serve true = serve_ends ∷ []
end_of_serve false = []

-- Behind the start. Without a token `pollDone` is closed from the start. Where `Serve` has not ended
-- before the signal, it ends behind `Shutdown`.
unfoldable pub finish : World → Bool → Ending → List Action × Result String (Unit {0})
finish w has_token (served failure) =
    (serve_ends ∷ stop_polling ∷ [], error_or failure "serve HTTP" (ok tt))
finish w has_token signalled = (
  end_of_serve w.ends_early
      ++ (set_ready false
          ∷ stop_polling
          ∷ await_polls (not has_token || w.polls_in_time)
          ∷ shut_down
          ∷ end_of_serve (not w.ends_early)),
  error_or w.shut_down "shutdown HTTP server" (error_or w.serve "serve HTTP" (ok tt)),
)

-- Where there is a token, the account's readiness is required before the listener is opened.
abbrev setup : Bool → List Action
setup true = require_account ∷ []
setup false = []

abbrev start : Bool → List PollStep → List Action
start true steps = start_polls steps ∷ []
start false steps = []

unfoldable pub run_listener : World → Config → Bool → Bool → List Action × Result String (Unit {0})
unfolding finish poll_steps
run_listener w c has_token false = (setup has_token, err "listen on configured address")
run_listener w c has_token true =
    let rest = finish w has_token w.ending in
    (
      setup has_token
          ++ (listen ∷ set_ready true ∷ serve ∷ (start has_token (poll_steps c) ++ rest.0)),
      rest.1,
    )

unfoldable pub run_client :
    World → Config → Result String Client → List Action × Result String (Unit {0})
unfolding run_listener
run_client w c (err message) = ([], err message)
run_client w c (ok client) = run_listener w c true w.can_listen

-- `run`, for what `config.Load` returns.
unfoldable pub run :
    (Text → Option BaseUrl) → World → Result String Config → List Action × Result String (Unit {0})
unfolding run_client run_listener new_client ◌==◌
run parse_url w (err message) = ([], err message)
run parse_url w (ok c) =
    if c.token == []
    then run_listener w c false w.can_listen
    else run_client w c (new_client parse_url (client_config c))
