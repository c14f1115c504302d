-- ===== src/Main/Run/Laws.antt =====
-- The life of the process: when it is ready, and how it ends.
use braiins_pool_exporter.Base.{
  ℕ, zero, suc, ◌≡◌, refl, ◌⊎◌, inl, inr, String, Bool, true, false, not, ◌&&◌, ◌||◌, List, [], ◌∷◌,
  Option, arith, take, if◌then◌else◌, Bool-cases,
}
use braiins_pool_exporter.Base.Int.{leb_ℤ, pos}
use braiins_pool_exporter.Base.Result.{ok, Result-cases}
use braiins_pool_exporter.Text.{Text, codes, ◌==◌, to_lower, trim_space}
use braiins_pool_exporter.Text.Laws.{==_iff}
use braiins_pool_exporter.Config.{Config, Environment}
use braiins_pool_exporter.Config.Laws.{IsValid}
use braiins_pool_exporter.Braiins.Request.{BaseUrl, new_client}
use braiins_pool_exporter.Collector.Pool.{normalize_coin}
use braiins_pool_exporter.Collector.Workers.{worker_limit}
use braiins_pool_exporter.Collector.History.Poll.{window_days}
use braiins_pool_exporter.Server
use braiins_pool_exporter.Server.{SelfMetrics, new_self_metrics, is_ready}
use braiins_pool_exporter.Main.Run.{
  new_collectors, client_config, Action, require_account, listen, serve, serve_ends, stop_polling,
  shut_down, set_ready, await_polls, start_polls, Ending, signalled, served, World, finish,
  run_listener, run_client, run,
}

-- Where the process is: its readiness, and what it has done. `listening` holds from `Listen` until
-- `Serve` ends or `Shutdown` closes the listener, `polling` until `pollDone` comes.
pub record Stage : Type 0 where
  pub self : SelfMetrics
  pub opened : Bool
  pub listening : Bool
  pub polling : Bool
  pub canceled : Bool
  pub shutting : Bool

abbrev pub first_stage : Stage
first_stage = record {
  self = new_self_metrics;
  opened = false;
  listening = false;
  polling = false;
  canceled = false;
  shutting = false;
}

unfoldable pub act : Stage → Action → Stage
unfolding Server.set_ready Server.require_account_ready
act s require_account = record s { self = Server.require_account_ready s.self }
act s listen = record s { opened = true; listening = true }
act s serve = s
act s serve_ends = record s { listening = false }
act s stop_polling = record s { canceled = true }
act s shut_down = record s { listening = false; shutting = true }
act s (set_ready ready) = record s { self = Server.set_ready ready s.self }
act s (start_polls steps) = record s { polling = true }
act s (await_polls ended) = record s { polling = s.polling && not ended }

unfoldable pub stage_after : Stage → List Action → Stage
unfolding act
stage_after s [] = s
stage_after s (a ∷ actions) = stage_after (act s a) actions

-- A test that every stage on the way passes.
unfoldable always : (Stage → Bool) → Stage → List Action → Bool
unfolding act
always test s [] = test s
always test s (a ∷ actions) = test s && always test (act s a) actions

always-take :
    (test : Stage → Bool) (s : Stage) (actions : List Action) (n : ℕ)
    → always test s actions ≡ true
    → test (stage_after s (take n actions)) ≡ true
unfolding always stage_after
always-take test s [] zero h = h
always-take test s [] (suc n) h = h
always-take test s (a ∷ actions) zero h = ground (arith, h)
always-take test s (a ∷ actions) (suc n) h =
    always-take test (act s a) actions n (ground (arith, h))

-- `Serve` ends without `Shutdown`.
abbrev pub ends_by_itself : World → Bool
ends_by_itself w = elim w.ending [ signalled ↦ w.ends_early | served failure ↦ true ]

-- A ready exporter has a listener, which is open unless `Serve` ends by itself, does not shut down, and
-- requires the account where there is a token.
abbrev is_sound : World → Bool → Stage → Bool
is_sound w has_token s =
    not s.self.initialized
    || s.opened
      && ((s.listening || ends_by_itself w)
          && (not s.shutting
              && (if has_token then s.self.requires_account else not s.self.requires_account)))

-- A server that is shut down is unready, and its polls are canceled and awaited.
abbrev is_orderly : World → Stage → Bool
is_orderly w s =
    not s.shutting
    || not s.self.initialized && (s.canceled && (not s.polling || not w.polls_in_time))

-- The run ends by a signal.
abbrev pub gets_signal : World → Bool
gets_signal w = elim w.ending [ signalled ↦ true | served failure ↦ false ]

-- Both, all the way, and what has been done in the end.
abbrev IsFine : World → Bool → List Action → Type 0
IsFine w has_token actions =
    let last = stage_after first_stage actions in
    (always (is_sound w has_token) first_stage actions ≡ true)
    × (always (is_orderly w) first_stage actions ≡ true)
    × (last.shutting ≡ (last.opened && gets_signal w))

listener-always :
    (c : Config) (has_token can can_listen early in_time : Bool) (ending : Ending)
    (shutdown_failure serve_failure : Option String)
    → let w : World = record {
      can_listen = can_listen;
      ending = ending;
      ends_early = early;
      polls_in_time = in_time;
      shut_down = shutdown_failure;
      serve = serve_failure;
    } in
      IsFine w has_token (run_listener w c has_token can).0
unfolding run_listener finish always stage_after act Server.set_ready Server.require_account_ready
listener-always c true false able early in_time ending f g = (refl, refl, refl)
listener-always c false false able early in_time ending f g = (refl, refl, refl)
listener-always c true true able true true signalled f g = (refl, refl, refl)
listener-always c true true able true false signalled f g = (refl, refl, refl)
listener-always c true true able false true signalled f g = (refl, refl, refl)
listener-always c true true able false false signalled f g = (refl, refl, refl)
listener-always c false true able true in_time signalled f g = (refl, refl, refl)
listener-always c false true able false in_time signalled f g = (refl, refl, refl)
listener-always c true true able early in_time (served failure) f g = (refl, refl, refl)
listener-always c false true able early in_time (served failure) f g = (refl, refl, refl)

run-always :
    (parse_url : Text → Option BaseUrl) (w : World) (c : Config)
    → IsFine w (not (c.token == [])) (run parse_url w (ok c)).0
unfolding run run_client
run-always parse_url w c =
    let all = λ (has_token : Bool).
      listener-always c has_token w.can_listen w.can_listen w.ends_early w.polls_in_time w.ending
        w.shut_down w.serve in
    elim (Bool-cases (c.token == [])) [
      | inl open_pool ↦ rw (run, open_pool) (all false)
      | inr with_token ↦ elim (Result-cases (new_client parse_url (client_config c))) [
        | inl (client, made) ↦ rw (run, run_client, with_token, made) (all true)
        | inr (message, failed) ↦
            rw (run, run_client, with_token, failed)
              (unfold always stage_after in (refl, refl, refl))
      ]
    ]

-- Behind the first `n` actions of a run that has a configuration.
abbrev pub stage_at : (Text → Option BaseUrl) → World → Config → ℕ → Stage
stage_at parse_url w c n = stage_after first_stage (take n (run parse_url w (ok c)).0)

-- At any time of a run that has a configuration: where the exporter is initialized, its listener has been
-- opened, and is open unless `Serve` ends by itself in this run; `Shutdown` has not been called; and the
-- account is required exactly if there is a token.
pub run-IsSound :
    (parse_url : Text → Option BaseUrl) (w : World) (c : Config) (n : ℕ)
    → (stage_at parse_url w c n).self.initialized ≡ true
    → let s = stage_at parse_url w c n in
      (s.opened ≡ true)
      × ((s.listening ≡ true) ⊎ (ends_by_itself w ≡ true))
      × (s.shutting ≡ false)
      × (s.self.requires_account ≡ not (c.token == []))
run-IsSound parse_url w c n h =
    let sound =
      always-take (is_sound w (not (c.token == []))) first_stage (run parse_url w (ok c)).0 n
        (run-always parse_url w c).0 in
    ground (arith, sound, h)

-- A run that has a configuration calls `Shutdown` by its end exactly if its listener was opened and it
-- ends by a signal. At any time of it: where `Shutdown` has been called, the exporter is unready, the
-- polls have been canceled, and they have ended, unless the time limit of the shutdown runs out first.
pub run-IsOrderly :
    (parse_url : Text → Option BaseUrl) (w : World) (c : Config) (n : ℕ)
    → let last = stage_after first_stage (run parse_url w (ok c)).0 in
      let s = stage_at parse_url w c n in
      (last.shutting ≡ (last.opened && gets_signal w))
      × ((s.shutting ≡ false)
          ⊎ ((s.self.initialized ≡ false)
              × (s.canceled ≡ true)
              × ((s.polling ≡ false) ⊎ (w.polls_in_time ≡ false))))
run-IsOrderly parse_url w c n =
    let (_, all, done) = run-always parse_url w c in
    let orderly = always-take (is_orderly w) first_stage (run parse_url w (ok c)).0 n all in
    (done, ground (arith, orderly))

-- Under a valid configuration no constructor falls back: the coin is btc, and the limits are those of
-- the configuration.
pub new_collectors-IsValid :
    (env : Environment) (fold : Text → Text) (c : Config)
    → IsValid env fold c
    → new_collectors fold c
      ≡ record { coin = codes "btc"; max_workers = c.max_workers; history_days = c.history_days }
unfolding new_collectors normalize_coin worker_limit window_days ◌==◌
new_collectors-IsValid env fold c valid =
    let coin = (==_iff (to_lower fold (trim_space c.coin)) (codes "btc")).0 valid.coin in
    let workers : leb_ℤ c.max_workers (pos 0) ≡ false = ground (arith, valid.workers) in
    let days : leb_ℤ c.history_days (pos 0) ≡ false = ground (arith, valid.some_days) in
    rw (coin, workers, days) refl
