-- ===== src/Server/Tests.antt =====
-- The routes and the readiness at a configuration that is loaded and at two polls.
use braiins_pool_exporter.Base.{ℕ, ◌≡◌, true, [], ◌∷◌, eqb, if◌then◌else◌, List}
use braiins_pool_exporter.Base.Int.{pos}
use braiins_pool_exporter.Base.Result.{Result, ok, err}
use braiins_pool_exporter.Base.Time.{Time}
use braiins_pool_exporter.Text.{Text, codes}
use braiins_pool_exporter.Collector.Cache.{ready}
use braiins_pool_exporter.Collector.Cache.Trace.{Event, cache_after}
use braiins_pool_exporter.Server.{SelfMetrics, readiness, status_text, respond, ready_gauge}
use braiins_pool_exporter.Server.Laws.{respond-readiness}

abbrev build : Time → ℕ → Result ℕ Time
build now r = if eqb r 0 then err 0 else ok now

abbrev unnamed : ℕ → Text
unnamed b = codes "invalid_data"

abbrev itself : Time → Time
itself t = t

-- A bad response behind a good one.
abbrev polls : List (Event build unnamed itself)
polls = (pos 20, ok 0) ∷ (pos 10, ok 1) ∷ []

abbrev initialized : SelfMetrics
initialized = record { initialized = true; requires_account = true }

respond-readiness_example :
    let account = ready (cache_after build unnamed itself polls) in
    (respond account initialized readiness ≡ status_text 200 (codes "ready"))
    × (ready_gauge account initialized ≡ 1)
respond-readiness_example = respond-readiness build unnamed itself initialized polls
