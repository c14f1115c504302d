-- ===== src/Collector/Workers.antt =====
-- internal/collector/worker.go: the snapshot of the workers.
pub mod Labels
pub mod Order
pub mod Laws
use braiins_pool_exporter.Base.{
  ℕ, String, Bool, true, false, not, ◌&&◌, ◌||◌, List, [], ◌∷◌, ◌++◌, map, Option, none, some, ltb,
  if◌then◌else◌, length,
}
use braiins_pool_exporter.Base.Int.{ℤ, pos, ltb_ℤ, leb_ℤ}
use braiins_pool_exporter.Base.Float.{Float64}
use braiins_pool_exporter.Base.Result.{Result, ok, err, ◌>>=◌, ◌>>◌, fail_if}
use braiins_pool_exporter.Base.Time.{Time}
use braiins_pool_exporter.Text.{Text, Map, codes, ◌==◌, contains, lookup, trim_space, to_lower}
use braiins_pool_exporter.Braiins.Types.{CoinEnvelope, Decimal, Worker, WorkersResponse}
use braiins_pool_exporter.Braiins.Errors.{ClientError}
use braiins_pool_exporter.Collector.Cache.{Cache, PollError, poll}
use braiins_pool_exporter.Collector.Decimals.{decimal_to_float, parse_windows}
use braiins_pool_exporter.Collector.Pool.{option_or}
use braiins_pool_exporter.Collector.Workers.Labels.{
  WorkerError, limit_exceeded, message, WorkerState, normalize_worker_label, normalize_worker_state,
  sort_workers,
}

-- An error of a step that is no limit.
abbrev lift : {A : Type 0} → Result String A → Result WorkerError A
lift (ok a) = ok a
lift (err m) = err (message m)

abbrev default_max_workers : ℤ
default_max_workers = pos 100

-- The limit that `NewWorkerMetrics` keeps.
unfoldable pub worker_limit : ℤ → ℤ
worker_limit configured = if leb_ℤ configured (pos 0) then default_max_workers else configured

-- The decimals that are read in a loop over a map of windows.
unfoldable pub worker_hashrates : Worker → List (Text × Decimal)
worker_hashrates worker =
    (codes "5m", worker.hash_rate_5m)
    ∷ (codes "60m", worker.hash_rate_60m)
    ∷ (codes "24h", worker.hash_rate_24h)
    ∷ []

unfoldable pub worker_shares : Worker → List (Text × Decimal)
worker_shares worker =
    (codes "5m", worker.shares_5m)
    ∷ (codes "60m", worker.shares_60m)
    ∷ (codes "24h", worker.shares_24h)
    ∷ []

module _ (fl : Float64) (fold : Text → Text) where
  open fl use {F, of_int}

  pub record WorkerSample : Type 0 where
    pub label : Text
    pub state : WorkerState
    pub hashrates : Map F
    pub shares : Map F
    pub last_share_timestamp : Option F

  pub record WorkerSnapshot : Type 0 where
    pub collected_at : Time
    pub workers : List WorkerSample

  -- The scoring hashrate, which is missing where its pointer is nil.
  unfoldable pub parse_scoring : Option Decimal → Result String (Map F)
  unfolding decimal_to_float option_or
  parse_scoring none = ok []
  parse_scoring (some value) = do
    parsed ←
        option_or "Braiins worker has invalid scoring hashrate value" (decimal_to_float fl value)
    ok ((codes "scoring", parsed) ∷ [])

  unfoldable pub build_worker_sample : Text → Worker → Result String WorkerSample
  unfolding trim_space ◌==◌ parse_windows parse_scoring normalize_worker_state worker_hashrates
      worker_shares
  build_worker_sample label worker = do
    let unit = trim_space worker.hash_rate_unit
    fail_if (not (unit == []) && not (unit == codes "Gh/s"))
        "Braiins worker has unsupported hashrate unit"
    windows ← parse_windows fl "Braiins worker has invalid hashrate value" (worker_hashrates worker)
    scoring ← parse_scoring worker.hash_rate_scoring
    shares ← parse_windows fl "Braiins worker has invalid shares value" (worker_shares worker)
    ok (record {
      label = label;
      state = normalize_worker_state fold worker.state;
      hashrates = windows ++ scoring;
      shares = shares;
      last_share_timestamp = elim worker.last_share [ none ↦ none | some n ↦ some (of_int n) ];
    })

  -- The loop over the sorted names, with the labels so far.
  unfoldable pub worker_loop : List Text → Map Worker → Result WorkerError (List WorkerSample)
  unfolding normalize_worker_label contains build_worker_sample
  worker_loop labels [] = ok []
  worker_loop labels ((name, worker) ∷ rest) = do
    label ← lift (normalize_worker_label name)
    fail_if (contains labels label)
        (message "Braiins workers response contains duplicate normalized worker labels")
    sample ← lift (build_worker_sample label worker)
    samples ← worker_loop (label ∷ labels) rest
    ok (sample ∷ samples)

  unfoldable pub build_worker_snapshot :
      Text → Time → ℤ → CoinEnvelope WorkersResponse → Result WorkerError WorkerSnapshot
  unfolding lookup to_lower worker_loop sort_workers option_or
  build_worker_snapshot coin collected_at max_workers envelope = do
    response ←
        option_or (message "Braiins workers response missing configured coin")
          (lookup envelope (to_lower fold coin))
    fail_if (ltb_ℤ max_workers (pos (length response.workers))) limit_exceeded
    samples ← worker_loop [] (sort_workers response.workers)
    ok (record { collected_at = collected_at; workers = samples })

  -- The category of an error of the build.
  unfoldable pub worker_category : WorkerError → Text
  worker_category limit_exceeded = codes "limit_exceeded"
  worker_category (message m) = codes "invalid_data"

  unfoldable pub worker_poll :
      Text
      → Time
      → ℤ
      → Cache WorkerSnapshot
      → Result ClientError (CoinEnvelope WorkersResponse)
      → Cache WorkerSnapshot × Option (PollError WorkerError)
  unfolding poll build_worker_snapshot worker_category
  worker_poll coin now max_workers =
      poll (build_worker_snapshot coin now max_workers) worker_category (λ s. s.collected_at)
