-- ===== src/Collector/Cache/Sections/Tests.antt =====
-- Two polls with a scrape in the middle of the first and one behind the second.
use braiins_pool_exporter.Base.{ℕ, List, [], ◌∷◌, none, some, eqb, if◌then◌else◌, All, ◌≡◌, refl}
use braiins_pool_exporter.Base.Int.{pos}
use braiins_pool_exporter.Base.Result.{Result, ok, err}
use braiins_pool_exporter.Base.Time.{Time}
use braiins_pool_exporter.Text.{Text, codes}
use braiins_pool_exporter.Braiins.Errors.{decode}
use braiins_pool_exporter.Collector.Cache.{Cache, empty_cache, record_request}
use braiins_pool_exporter.Collector.Cache.Sections.{
  Poll, Scrape, state, idle, publishing, observe, count_poll, publish_poll, poll_counts,
  poll_publishes, scrape, Reached, start, later,
}
use braiins_pool_exporter.Collector.Cache.Sections.Laws.{IsObserved, Reached-IsObserved}

abbrev build : Time → ℕ → Result ℕ Time
build now r = if eqb r 0 then err 0 else ok now

abbrev unnamed : ℕ → Text
unnamed b = codes "invalid_data"

abbrev itself : Time → Time
itself t = t

abbrev counted : Cache Time
counted = (count_poll build unnamed itself empty_cache (pos 10, ok 1)).0

abbrev published : Cache Time
published = publish_poll build unnamed itself counted (pos 10)

abbrev good : Poll ℕ
good = (pos 10, ok 1)

abbrev failing : Poll ℕ
failing = (pos 20, err decode)

abbrev broken : Cache Time
broken = (count_poll build unnamed itself published failing).0

-- In the middle of a poll, and behind one that has failed.
abbrev scrapes : List (Scrape ℕ Time)
scrapes =
    record { polls = failing ∷ good ∷ []; phase = idle; read = observe broken }
    ∷ record { polls = good ∷ []; phase = publishing (pos 10); read = observe counted }
    ∷ []

scraped : Reached build unnamed itself (state broken idle (failing ∷ good ∷ []) scrapes)
unfolding count_poll record_request
scraped =
    later
      (later
        (later
          (later (later start (poll_counts empty_cache [] [] good))
            (scrape counted (publishing (pos 10)) (good ∷ []) []))
          (poll_publishes counted (good ∷ []) _ (pos 10)))
        (poll_counts published (good ∷ []) _ failing))
      (scrape broken idle (failing ∷ good ∷ []) _)

-- The scrape in the middle reads no snapshot yet.
early_scrape : (observe counted).last_good ≡ none
unfolding count_poll record_request
early_scrape = refl

-- A poll that failed leaves the snapshot and is counted once.
late_scrape : observe broken ≡ record {
  last_good = some (pos 10);
  requests = (codes "success", 1) ∷ (codes "decode", 1) ∷ [];
}
unfolding count_poll record_request publish_poll
late_scrape = refl

Reached-IsObserved_example : All (IsObserved build unnamed itself) scrapes
Reached-IsObserved_example =
    Reached-IsObserved build unnamed itself broken idle (failing ∷ good ∷ []) scrapes scraped
