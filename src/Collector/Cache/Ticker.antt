-- ===== src/Collector/Cache/Ticker.antt =====
-- The Run methods of internal/collector/{pool,account,worker,history}.go: a poll at once, and one for
-- each tick until the context is done.
pub mod Laws
use braiins_pool_exporter.Base.{
  ℕ, zero, suc, ◌+◌, ◌*◌, ◌≡◌, refl, Bool, true, false, List, [], ◌∷◌, arith, if◌then◌else◌,
}
use braiins_pool_exporter.Base.Int.{ℤ, pos, leb_ℤ}
use braiins_pool_exporter.Base.Time.{Duration, second}

-- What the ticker is set to.
unfoldable pub tick_interval : Duration → Duration
tick_interval interval = if leb_ℤ interval (pos 0) then pos (60 * second) else interval

-- The ticks before the context is done.
abbrev pub ticked : List Bool → ℕ
ticked [] = 0
ticked (false ∷ ticks) = 0
ticked (true ∷ ticks) = suc (ticked ticks)

-- `poll_once` is the poll of the collector, by its number; its error is thrown away.
module _ {M : Type 0} (poll_once : ℕ → M → M) where
  -- Each wait brings a tick (true) or the end of the context; behind the list's end the loop waits.
  unfoldable pub ticker_loop : ℕ → List Bool → M → M
  ticker_loop k [] m = m
  ticker_loop k (false ∷ ticks) m = m
  ticker_loop k (true ∷ ticks) m = ticker_loop (suc k) ticks (poll_once k m)

  unfoldable pub run_ticker : List Bool → M → M
  unfolding ticker_loop
  run_ticker ticks m = ticker_loop 1 ticks (poll_once 0 m)

  -- The first polls, one behind the other.
  abbrev pub polled : ℕ → M → M
  polled zero m = m
  polled (suc k) m = poll_once k (polled k m)

  ticker_loop-polled :
      (k : ℕ) (ticks : List Bool) (m : M)
      → ticker_loop k ticks (polled k m) ≡ polled (ticked ticks + k) m
  unfolding ticker_loop
  ticker_loop-polled k [] m = let same : 0 + k ≡ k = omega arith in rw same refl
  ticker_loop-polled k (false ∷ ticks) m = let same : 0 + k ≡ k = omega arith in rw same refl
  ticker_loop-polled k (true ∷ ticks) m =
      let same : suc (ticked ticks) + k ≡ ticked ticks + suc k = omega arith in
      rw same (ticker_loop-polled (suc k) ticks m)

  -- A run polls once more than there were ticks before the end of the context, in order.
  pub run_ticker-polled :
      (ticks : List Bool) (m : M) → run_ticker ticks m ≡ polled (ticked ticks + 1) m
  unfolding run_ticker
  run_ticker-polled ticks m = ticker_loop-polled 1 ticks m
