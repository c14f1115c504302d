-- ===== src/Collector/Cache/Sourced/Tests.antt =====
-- A poll through a client whose server is busy and then answers.
use mathlib.Core.Path.{subst}
use braiins_pool_exporter.Base.{ℕ, ◌≡◌, refl, sym, List, [], ◌∷◌, some, All}
use braiins_pool_exporter.Base.Int.{pos}
use braiins_pool_exporter.Base.Result.{Result, ok}
use braiins_pool_exporter.Base.Time.{Time}
use braiins_pool_exporter.Text.{Text, codes}
use braiins_pool_exporter.Braiins.Retry.{do_json}
use braiins_pool_exporter.Braiins.Request.{workers_request, new_request}
use braiins_pool_exporter.Braiins.Request.Laws.{of_workers}
use braiins_pool_exporter.Braiins.Request.Once.{do_json_once}
use braiins_pool_exporter.Braiins.Request.Tests.{
  same_text, any_url, config, parse, client, client_run, workers_run, measure, server, busy,
  busy_outcomes,
}
use braiins_pool_exporter.Braiins.Tests.{whole_numbers, no_dates, policy}
use braiins_pool_exporter.Collector.Cache.Trace.{cache_after}
use braiins_pool_exporter.Collector.Cache.Sourced.{ApiCall, fetched, IsFaithful, polls}
use braiins_pool_exporter.Collector.Cache.Sourced.Laws.{IsSourced, Origin, cache_after-IsSourced}

-- The snapshot is the time and the length of the body.
abbrev Snap : Type 0
Snap = Time × ℕ

abbrev build : Time → ℕ → Result ℕ Snap
build now n = ok (now, n)

abbrev unnamed : ℕ → Text
unnamed b = codes "invalid_data"

abbrev time_of : Snap → Time
time_of s = s.0

abbrev calls : List (ApiCall ℕ)
calls = record { world = busy; send = server; now = pos 9 } ∷ []

polled :
    (cache_after build unnamed time_of (polls no_dates whole_numbers 0 policy calls)).last_good
    ≡ some (pos 9, 2)
unfolding cache_after fetched do_json
polled = refl

server_outcomes :
    All
      (IsFaithful same_text measure
        (new_request same_text same_text any_url client (workers_request (codes " BTC "))))
      calls
server_outcomes = (
  λ k.
      subst (λ b. do_json_once same_text measure (server k) b ≡ some (busy.outcome k))
        (sym workers_run) (busy_outcomes k),
  tt,
)

cache_after-IsSourced_example :
    IsSourced no_dates whole_numbers 0 policy build unnamed time_of
      (Origin same_text same_text any_url no_dates whole_numbers measure 0 client
        (workers_request (codes " BTC "))
        (codes "accounts/workers/json/"))
      (pos 9, 2)
      calls
cache_after-IsSourced_example =
    cache_after-IsSourced same_text same_text any_url no_dates whole_numbers measure 0 client
      (workers_request (codes " BTC ")) (codes "accounts/workers/json/") build unnamed time_of parse
      config calls (pos 9, 2) client_run of_workers server_outcomes polled
