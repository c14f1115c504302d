-- ===== src/Collector/Collect/Workers.antt =====
-- `Collect` of internal/collector/worker.go.
use braiins_pool_exporter.Base.{
  Bool, true, false, List, [], ◌∷◌, ◌++◌, Option, none, some, if◌then◌else◌,
}
use braiins_pool_exporter.Base.Int.{pos}
use braiins_pool_exporter.Base.Float.{Float64}
use braiins_pool_exporter.Base.Time.{Time, unix}
use braiins_pool_exporter.Text.{Text, codes}
use braiins_pool_exporter.Collector.Cache.{Cache}
use braiins_pool_exporter.Collector.Workers.{WorkerSample, WorkerSnapshot}
use braiins_pool_exporter.Collector.Workers.Labels.{WorkerState, ok_state, low, off, dis, unknown}
use braiins_pool_exporter.Collector.Collect.{
  Key, Sample, sample, window_samples, age, freshness, request_samples, if_any, worker_state_desc,
  worker_hashrate_desc, worker_shares_desc, worker_last_share_timestamp_desc,
  worker_last_share_age_desc,
}

abbrev pub state_text : WorkerState → Text
state_text ok_state = codes "ok"
state_text low = codes "low"
state_text off = codes "off"
state_text dis = codes "dis"
state_text unknown = codes "unknown"

abbrev pub same_state : WorkerState → WorkerState → Bool
same_state ok_state ok_state = true
same_state low low = true
same_state off off = true
same_state dis dis = true
same_state unknown unknown = true
same_state _ _ = false

abbrev pub worker_state_values : List WorkerState
worker_state_values = ok_state ∷ low ∷ off ∷ dis ∷ unknown ∷ []

abbrev pub worker_hashrate_windows : List Text
worker_hashrate_windows = codes "scoring" ∷ codes "5m" ∷ codes "60m" ∷ codes "24h" ∷ []

abbrev pub worker_share_windows : List Text
worker_share_windows = codes "5m" ∷ codes "60m" ∷ codes "24h" ∷ []

module _ (fl : Float64) (fold : Text → Text) (clock : Key → Time) where
  open fl use {F, of_int, to_int}

  unfoldable pub state_samples : Text → WorkerState → List WorkerState → List (Sample fl fold)
  state_samples label current [] = []
  state_samples label current (state ∷ states) =
      sample fl fold worker_state_desc (label ∷ state_text state ∷ [])
        (of_int (if same_state current state then pos 1 else pos 0))
      ∷ state_samples label current states

  unfoldable pub last_share_samples : Text → Option F → List (Sample fl fold)
  unfolding age unix
  last_share_samples label none = []
  last_share_samples label (some at) =
      sample fl fold worker_last_share_timestamp_desc (label ∷ []) at
      ∷ sample fl fold worker_last_share_age_desc (label ∷ []) (
          age fl fold clock (record { desc = worker_last_share_age_desc; labels = label ∷ [] })
            (unix (to_int at)))
      ∷ []

  unfoldable pub one_worker : WorkerSample fl fold → List (Sample fl fold)
  unfolding state_samples window_samples last_share_samples
  one_worker w =
      state_samples w.label w.state worker_state_values
      ++ (window_samples fl fold worker_hashrate_desc (w.label ∷ []) worker_hashrate_windows
            w.hashrates
          ++ (window_samples fl fold worker_shares_desc (w.label ∷ []) worker_share_windows w.shares
              ++ last_share_samples w.label w.last_share_timestamp))

  unfoldable pub each_worker : List (WorkerSample fl fold) → List (Sample fl fold)
  unfolding one_worker
  each_worker [] = []
  each_worker (w ∷ ws) = one_worker w ++ each_worker ws

  unfoldable pub worker_samples : WorkerSnapshot fl fold → List (Sample fl fold)
  unfolding each_worker freshness
  worker_samples s =
      each_worker s.workers ++ freshness fl fold clock (codes "workers") s.collected_at

  unfoldable pub collect_workers : Cache (WorkerSnapshot fl fold) → List (Sample fl fold)
  unfolding request_samples worker_samples
  collect_workers c =
      request_samples fl fold (codes "workers") c.requests
      ++ if_any fl fold clock worker_samples c.last_good
