-- ===== src/Collector/Describe/Fit/Workers.antt =====
-- The samples of the workers against the descriptors.
use braiins_pool_exporter.Base.{refl, List, [], ◌∷◌, Option, none, some, All-append}
use braiins_pool_exporter.Base.Float.{Float64}
use braiins_pool_exporter.Base.Time.{Time}
use braiins_pool_exporter.Text.{Text, codes}
use braiins_pool_exporter.Collector.Cache.{Cache}
use braiins_pool_exporter.Collector.Workers.{WorkerSample, WorkerSnapshot}
use braiins_pool_exporter.Collector.Workers.Labels.{WorkerState}
use braiins_pool_exporter.Collector.Collect.{
  Key, freshness, worker_hashrate_desc, worker_shares_desc,
}
use braiins_pool_exporter.Collector.Collect.Workers.{
  state_samples, last_share_samples, one_worker, each_worker, worker_samples, collect_workers,
  worker_state_values, worker_hashrate_windows, worker_share_windows,
}
use braiins_pool_exporter.Collector.Describe.{label_names, describe_account, describe_workers}
use braiins_pool_exporter.Collector.Describe.Laws.{
  IsFit, AreFit, request_samples-AreFit, window_samples-AreFit, freshness-AreFit, if_any-AreFit,
}
use braiins_pool_exporter.Collector.Describe.Fit.{places, Shared-append, worker_descs}

module _ (fl : Float64) (fold : Text → Text) (clock : Key → Time) where
  state_samples-AreFit :
      (label : Text) (current : WorkerState) (states : List WorkerState)
      → AreFit fl fold worker_descs (state_samples fl fold clock label current states)
  unfolding state_samples label_names describe_workers describe_account
  state_samples-AreFit label current [] = tt
  state_samples-AreFit label current (state ∷ states) =
      ((refl, search places depth 9), state_samples-AreFit label current states)

  last_share_samples-AreFit :
      (label : Text) (at : Option fl.F)
      → AreFit fl fold worker_descs (last_share_samples fl fold clock label at)
  unfolding last_share_samples label_names describe_workers describe_account
  last_share_samples-AreFit label none = tt
  last_share_samples-AreFit label (some at) =
      ((refl, search places depth 9), ((refl, search places depth 9), tt))

  one_worker-AreFit :
      (w : WorkerSample fl fold) → AreFit fl fold worker_descs (one_worker fl fold clock w)
  unfolding one_worker label_names describe_workers describe_account
  one_worker-AreFit w =
      All-append (IsFit fl fold worker_descs)
        (state_samples fl fold clock w.label w.state worker_state_values) _
        (state_samples-AreFit w.label w.state worker_state_values)
        (All-append (IsFit fl fold worker_descs) _ _
          (window_samples-AreFit fl fold worker_descs worker_hashrate_desc (w.label ∷ [])
            worker_hashrate_windows w.hashrates refl (search places depth 9))
          (All-append (IsFit fl fold worker_descs) _
            (last_share_samples fl fold clock w.label w.last_share_timestamp)
            (window_samples-AreFit fl fold worker_descs worker_shares_desc (w.label ∷ [])
              worker_share_windows w.shares refl (search places depth 9))
            (last_share_samples-AreFit w.label w.last_share_timestamp)))

  each_worker-AreFit :
      (ws : List (WorkerSample fl fold))
      → AreFit fl fold worker_descs (each_worker fl fold clock ws)
  unfolding each_worker
  each_worker-AreFit [] = tt
  each_worker-AreFit (w ∷ ws) =
      All-append (IsFit fl fold worker_descs) (one_worker fl fold clock w)
        (each_worker fl fold clock ws) (one_worker-AreFit w) (each_worker-AreFit ws)

  worker_samples-AreFit :
      (s : WorkerSnapshot fl fold) → AreFit fl fold worker_descs (worker_samples fl fold clock s)
  unfolding worker_samples
  worker_samples-AreFit s =
      All-append (IsFit fl fold worker_descs) (each_worker fl fold clock s.workers)
        (freshness fl fold clock (codes "workers") s.collected_at) (each_worker-AreFit s.workers)
        (freshness-AreFit fl fold worker_descs clock (codes "workers") s.collected_at
          (Shared-append describe_workers))

  pub collect_workers-AreFit :
      (c : Cache (WorkerSnapshot fl fold))
      → AreFit fl fold worker_descs (collect_workers fl fold clock c)
  unfolding collect_workers
  collect_workers-AreFit c =
      All-append (IsFit fl fold worker_descs) _ _
        (request_samples-AreFit fl fold worker_descs (codes "workers") c.requests
          (Shared-append describe_workers))
        (if_any-AreFit fl fold worker_descs clock (worker_samples fl fold clock) c.last_good
          worker_samples-AreFit)
