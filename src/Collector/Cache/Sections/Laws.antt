-- ===== src/Collector/Cache/Sections/Laws.antt =====
-- What a scrape reads, wherever it falls between the critical sections of the polls.
use braiins_pool_exporter.Base.{◌≡◌, refl, sym, ap, List, ◌∷◌, All, Option}
use braiins_pool_exporter.Base.Result.{Result, ok, err}
use braiins_pool_exporter.Base.Time.{Time}
use braiins_pool_exporter.Text.{Text, codes}
use braiins_pool_exporter.Collector.Counters.{count, count-bump}
use braiins_pool_exporter.Collector.Cache.{Cache, record_request, accept, store, poll}
use braiins_pool_exporter.Collector.Cache.Trace.{
  outcome, latest, tally, cache_after, cache_after-Refines,
}
use braiins_pool_exporter.Collector.Cache.Sections.{
  Phase, idle, publishing, observe, Poll, Scrape, State, state, count_built, count_poll,
  publish_poll, Step, poll_counts, poll_publishes, scrape, Reached, start, later,
}

module _ {R B S : Type 0} (build : Time → R → Result B S) (invalid_category : B → Text)
    (collected_at : S → Time) where
  abbrev after : List (Poll R) → Cache S
  after polls = cache_after build invalid_category collected_at polls

  abbrev yields : Poll R → Result Text S
  yields p = outcome build invalid_category collected_at p

  -- Between the two locks the last poll is counted, and has yielded the snapshot that is published next.
  abbrev Between : List (Poll R) → Phase S → Cache S → Type 0
  Between polls idle c = c ≡ after polls
  Between polls (publishing s) c =
      (p : Poll R) × (earlier : List (Poll R)) × (polls ≡ p ∷ earlier)
      × (yields p ≡ ok s)
      × (c ≡ record_request (after earlier) (codes "success"))
      × (publish_poll build invalid_category collected_at c s ≡ after polls)

  -- The snapshot is that of the last poll that succeeded, among all the polls, or among those before the
  -- last while the last has its own still to publish.
  abbrev pub Shows : List (Poll R) → Phase S → Option S → Type 0
  Shows polls idle shown = shown ≡ latest build invalid_category collected_at polls
  Shows polls (publishing s) shown =
      (p : Poll R) × (earlier : List (Poll R)) × (polls ≡ p ∷ earlier)
      × (yields p ≡ ok s)
      × (shown ≡ latest build invalid_category collected_at earlier)

  -- The counters are those of just the polls that had been counted.
  pub record IsObserved (scraped : Scrape R S) : Type 0 where
    pub shown : Shows scraped.polls scraped.phase scraped.read.last_good
    pub counted :
        (key : Text)
        → count scraped.read.requests key
          ≡ tally build invalid_category collected_at scraped.polls key

  count_built-Between :
      (polls : List (Poll R)) (now : Time) (r : R) (built : Result B S)
      → build now r ≡ built
      → let (c, phase) = count_built build invalid_category collected_at (after polls) built in
        Between ((now, ok r) ∷ polls) phase c
  unfolding publish_poll cache_after poll store record_request accept
  count_built-Between polls now r (err b) e =
      let stored =
        λ (b : Result B S). (store (build now) invalid_category collected_at (after polls) b).0 in
      sym (ap stored e)
  count_built-Between polls now r (ok s) e =
      let stored =
        λ (b : Result B S). (store (build now) invalid_category collected_at (after polls) b).0 in
      ((now, ok r), polls, refl, rw e refl, refl, sym (ap stored e))

  count_poll-Between :
      (polls : List (Poll R)) (p : Poll R)
      → let (c, phase) = count_poll build invalid_category collected_at (after polls) p in
        Between (p ∷ polls) phase c
  unfolding count_poll cache_after poll
  count_poll-Between polls (now, ok r) = count_built-Between polls now r (build now r) refl
  count_poll-Between polls (now, err e) = refl

  Between-IsObserved :
      (polls : List (Poll R)) (phase : Phase S) (c : Cache S)
      → Between polls phase c
      → IsObserved (record { polls = polls; phase = phase; read = observe c })
  unfolding record_request
  Between-IsObserved polls idle c h =
      let r = cache_after-Refines build invalid_category collected_at polls in
      record { shown = rw h r.snapshot; counted = rw h r.counts }
  Between-IsObserved polls (publishing s) c (p, earlier, split, good, mid, _) =
      let r = cache_after-Refines build invalid_category collected_at earlier in
      record {
        shown = (p, earlier, split, good, rw mid r.snapshot);
        counted =
            rw (mid, split)
              (λ key.
                rw (good, ← r.counts key)
                  (count-bump (after earlier).requests (codes "success") key));
      }

  abbrev IsSound : State R S → Type 0
  IsSound (state c phase polls seen) = Between polls phase c × All IsObserved seen

  Step-IsSound :
      {s t : State R S} → Step build invalid_category collected_at s t → IsSound s → IsSound t
  Step-IsSound (poll_counts c polls seen p) (mid, fine) =
      (rw mid (count_poll-Between polls p), fine)
  Step-IsSound (poll_publishes c polls seen s) ((_, _, _, _, _, done), fine) = (done, fine)
  Step-IsSound (scrape c phase polls seen) (mid, fine) =
      (mid, (Between-IsObserved polls phase c mid, fine))

  Reached-IsSound : {s : State R S} → Reached build invalid_category collected_at s → IsSound s
  unfolding cache_after
  Reached-IsSound start = (refl, tt)
  Reached-IsSound (later r step) = Step-IsSound step (Reached-IsSound r)

  -- Wherever scrapes fall between the critical sections of the polls: each counter that a scrape reads is
  -- the number of the polls counted by then that ended in its category, and the snapshot, which it reads
  -- whole, is that of the last poll that succeeded, not yet that of a poll which has been counted and
  -- publishes its snapshot next.
  pub Reached-IsObserved :
      (c : Cache S) (phase : Phase S) (polls : List (Poll R)) (seen : List (Scrape R S))
      → Reached build invalid_category collected_at (state c phase polls seen)
      → All IsObserved seen
  Reached-IsObserved c phase polls seen r = (Reached-IsSound r).1
