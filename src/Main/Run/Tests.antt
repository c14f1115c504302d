-- ===== src/Main/Run/Tests.antt =====
-- The life of a process with a loaded configuration.
use braiins_pool_exporter.Base.{◌≡◌, refl, ◌⊎◌, ◌&&◌, true, false, not, [], ◌∷◌, Option, none, some}
use braiins_pool_exporter.Base.Result.{ok}
use braiins_pool_exporter.Text.{Text, codes, ◌==◌, trim_space}
use braiins_pool_exporter.Config.Tests.{loaded}
use braiins_pool_exporter.Braiins.Request.{BaseUrl, new_client, check_url}
use braiins_pool_exporter.Server
use braiins_pool_exporter.Main.{account, pool, worker, rewards, payouts, poll_steps}
use braiins_pool_exporter.Main.Run.{
  require_account, listen, serve, serve_ends, stop_polling, shut_down, set_ready, await_polls,
  start_polls, signalled, served, World, finish, run_listener, run_client, run,
}
use braiins_pool_exporter.Main.Run.Laws.{
  first_stage, act, stage_after, stage_at, run-IsSound, ends_by_itself, gets_signal, run-IsOrderly,
}

abbrev parse : Text → Option BaseUrl
parse s = some (record {
  scheme = codes "https";
  host = codes "pool.braiins.com";
  path = [];
  has_user = false;
  raw_query = [];
  fragment = [];
})

abbrev calm : World
calm = record {
  can_listen = true;
  ending = signalled;
  ends_early = false;
  polls_in_time = true;
  shut_down = none;
  serve = none;
}

calm-run : run parse calm (ok loaded) ≡ (
  require_account
      ∷ listen
      ∷ set_ready true
      ∷ serve
      ∷ start_polls (account ∷ pool ∷ worker ∷ rewards ∷ payouts ∷ [])
      ∷ set_ready false
      ∷ stop_polling
      ∷ await_polls true
      ∷ shut_down
      ∷ serve_ends
      ∷ [],
  ok tt,
)
unfolding run run_client run_listener finish poll_steps new_client check_url trim_space ◌==◌
calm-run = refl

-- Where `Serve` ends by itself the exporter stays initialized with its listener closed.
still_ready :
    let s = stage_at parse (record calm { ending = served none }) loaded 6 in
    (s.self.initialized ≡ true) × (s.listening ≡ false)
unfolding run run_client run_listener finish poll_steps new_client check_url trim_space ◌==◌
    stage_after act Server.set_ready Server.require_account_ready
still_ready = (refl, refl)

run-IsSound_example :
    let s = stage_at parse calm loaded 4 in
    (s.opened ≡ true)
    × ((s.listening ≡ true) ⊎ (ends_by_itself calm ≡ true))
    × (s.shutting ≡ false)
    × (s.self.requires_account ≡ not (loaded.token == []))
unfolding run run_client run_listener finish poll_steps new_client check_url trim_space ◌==◌
    stage_after act Server.set_ready Server.require_account_ready
run-IsSound_example = run-IsSound parse calm loaded 4 refl

run-IsOrderly_example :
    let last = stage_after first_stage (run parse calm (ok loaded)).0 in
    let s = stage_at parse calm loaded 9 in
    (last.shutting ≡ (last.opened && gets_signal calm))
    × ((s.shutting ≡ false)
        ⊎ ((s.self.initialized ≡ false)
            × (s.canceled ≡ true)
            × ((s.polling ≡ false) ⊎ (calm.polls_in_time ≡ false))))
run-IsOrderly_example = run-IsOrderly parse calm loaded 9

-- The calm run ends shut down, and there the polls have ended.
shut_down_at_last :
    let s = stage_at parse calm loaded 9 in (s.shutting ≡ true) × (s.polling ≡ false)
unfolding run run_client run_listener finish poll_steps new_client check_url trim_space ◌==◌
    stage_after act Server.set_ready Server.require_account_ready
shut_down_at_last = (refl, refl)
