-- ===== src/Collector/Collect/OneWorker.antt =====
-- The series of the workers: one worker's are told apart by metric and last label, those of two by the
-- label of the worker.
use braiins_pool_exporter.Base.{
  ◌≡◌, refl, sym, ◌∙◌, ◌≢◌, List, [], ◌∷◌, map, Option, none, some, arith, All,
}
use braiins_pool_exporter.Base.Different.{Different, All-mono}
use braiins_pool_exporter.Base.Float.{Float64}
use braiins_pool_exporter.Base.Time.{Time}
use braiins_pool_exporter.Text.{Text, Map, codes, ◌==◌, contains, lookup}
use braiins_pool_exporter.Collector.Cache.{Cache}
use braiins_pool_exporter.Collector.Workers.Laws.{labels_of}
use braiins_pool_exporter.Collector.Collect.Laws.{Series-if_any}
use braiins_pool_exporter.Collector.Workers.{WorkerSample, WorkerSnapshot}
use braiins_pool_exporter.Collector.Workers.Labels.{WorkerState}
use braiins_pool_exporter.Collector.Collect.{
  Desc, Key, optional, window_samples, worker_state_desc, worker_hashrate_desc, worker_shares_desc,
}
use braiins_pool_exporter.Collector.Collect.Workers.{
  state_samples, state_text, last_share_samples, one_worker, each_worker, worker_samples,
  collect_workers, worker_state_values, worker_hashrate_windows, worker_share_windows,
}
use braiins_pool_exporter.Collector.Collect.Keys.{keys_of, all_different, all_different-Different}
use braiins_pool_exporter.Collector.Collect.Series.{
  rank_of, keys, Series, Series-map, Series-windows, Series-append, Series-wider, Series-requests,
  Series-freshness, by_endpoint, All-keys, Different-keys,
}

abbrev head : List Text → Text
head [] = []
head (t ∷ ts) = t

abbrev IsOf : Text → Key → Type 0
IsOf label k = head k.labels ≡ label

abbrev state_key : Text → Text → Key
state_key label state = record { desc = worker_state_desc; labels = label ∷ state ∷ [] }

state_key-injective : (label t u : Text) → state_key label t ≡ state_key label u → t ≡ u
state_key-injective label t u e = cc

module _ (fl : Float64) (fold : Text → Text) (clock : Key → Time) where
  open fl use {F}

  IsOf-states :
      (label : Text) (current : WorkerState) (states : List WorkerState)
      → All (IsOf label) (keys fl fold (state_samples fl fold clock label current states))
  unfolding state_samples
  IsOf-states label current [] = tt
  IsOf-states label current (s ∷ ss) = (refl, IsOf-states label current ss)

  IsOf-optional :
      (desc : Desc) (label window : Text) (value : Option F)
      → All (IsOf label) (keys fl fold (optional fl fold desc (label ∷ window ∷ []) value))
  IsOf-optional desc label window none = tt
  IsOf-optional desc label window (some v) = (refl, tt)

  IsOf-windows :
      (desc : Desc) (label : Text) (windows : List Text) (values : Map F)
      → All (IsOf label) (keys fl fold (window_samples fl fold desc (label ∷ []) windows values))
  unfolding window_samples
  IsOf-windows desc label [] values = tt
  IsOf-windows desc label (w ∷ ws) values =
      All-keys fl fold (IsOf label) (optional fl fold desc (label ∷ w ∷ []) (lookup values w)) _
        (IsOf-optional desc label w (lookup values w)) (IsOf-windows desc label ws values)

  IsOf-last_share :
      (label : Text) (at : Option F)
      → All (IsOf label) (keys fl fold (last_share_samples fl fold clock label at))
  unfolding last_share_samples
  IsOf-last_share label none = tt
  IsOf-last_share label (some t) = (refl, (refl, tt))

  one_worker-IsOf :
      (w : WorkerSample fl fold) → All (IsOf w.label) (keys fl fold (one_worker fl fold clock w))
  unfolding one_worker
  one_worker-IsOf w =
      All-keys fl fold (IsOf w.label)
        (state_samples fl fold clock w.label w.state worker_state_values) _
        (IsOf-states w.label w.state worker_state_values)
        (All-keys fl fold (IsOf w.label)
          (window_samples fl fold worker_hashrate_desc (w.label ∷ []) worker_hashrate_windows
            w.hashrates)
          _ (IsOf-windows worker_hashrate_desc w.label worker_hashrate_windows w.hashrates)
          (All-keys fl fold (IsOf w.label)
            (window_samples fl fold worker_shares_desc (w.label ∷ []) worker_share_windows w.shares)
            _ (IsOf-windows worker_shares_desc w.label worker_share_windows w.shares)
            (IsOf-last_share w.label w.last_share_timestamp)))

  states-Series :
      (label : Text) (current : WorkerState)
      → Series fl fold 301 302 (state_samples fl fold clock label current worker_state_values)
  unfolding state_samples rank_of
  states-Series label current =
      Series-map fl fold (state_key label) 301 (map state_text worker_state_values)
        (state_samples fl fold clock label current worker_state_values)
        (λ t u e. state_key-injective label t u e) (λ t. refl)
        (unfold all_different contains ◌==◌ in
          all_different-Different (map state_text worker_state_values) refl)
        refl

  last_share-Series :
      (label : Text) (at : Option F)
      → Series fl fold 304 306 (last_share_samples fl fold clock label at)
  unfolding last_share_samples Series rank_of
  last_share-Series label none = record { ranks = tt; different = tt }
  last_share-Series label (some t) = record {
    ranks = (omega arith, (omega arith, tt));
    different = (((λ same. cc), tt), (tt, tt));
  }

  one_worker-Series :
      (w : WorkerSample fl fold) → Series fl fold 301 306 (one_worker fl fold clock w)
  unfolding one_worker rank_of all_different contains ◌==◌
  one_worker-Series w =
      Series-append fl fold 301 302 306 _ _ (states-Series w.label w.state)
        (Series-append fl fold 302 303 306 _ _
          (Series-windows fl fold worker_hashrate_desc (w.label ∷ []) worker_hashrate_windows 302
            w.hashrates (λ ls. refl) (all_different-Different worker_hashrate_windows refl))
          (Series-append fl fold 303 304 306 _ _
            (Series-windows fl fold worker_shares_desc (w.label ∷ []) worker_share_windows 303
              w.shares (λ ls. refl) (all_different-Different worker_share_windows refl))
            (last_share-Series w.label w.last_share_timestamp) (omega arith) (omega arith))
          (omega arith) (omega arith))
        (omega arith) (omega arith)

  each_worker-other :
      (label : Text) (ws : List (WorkerSample fl fold))
      → All (λ t. label ≢ t) (labels_of fl fold ws)
      → All (λ k. IsOf label k → ⊥) (keys fl fold (each_worker fl fold clock ws))
  unfolding each_worker
  each_worker-other label [] h = tt
  each_worker-other label (w ∷ ws) h =
      All-keys fl fold (λ k. IsOf label k → ⊥) (one_worker fl fold clock w) _
        (All-mono (IsOf w.label) (λ k. IsOf label k → ⊥) (λ k mine theirs. h.0 (sym theirs ∙ mine))
          (keys fl fold (one_worker fl fold clock w)) (one_worker-IsOf w))
        (each_worker-other label ws h.1)

  each_worker-Series :
      (ws : List (WorkerSample fl fold))
      → Different (labels_of fl fold ws)
      → Series fl fold 301 306 (each_worker fl fold clock ws)
  unfolding each_worker Series
  each_worker-Series [] d = record { ranks = tt; different = tt }
  each_worker-Series (w ∷ ws) d =
      let one = one_worker-Series w in
      let rest = each_worker-Series ws d.1 in
      record {
        ranks = All-keys fl fold _ (one_worker fl fold clock w) _ one.ranks rest.ranks;
        different =
            Different-keys fl fold (IsOf w.label) (one_worker fl fold clock w)
              (each_worker fl fold clock ws) (one_worker-IsOf w) (each_worker-other w.label ws d.0)
              one.different rest.different;
      }

  worker_samples-Series :
      (s : WorkerSnapshot fl fold)
      → Different (labels_of fl fold s.workers)
      → Series fl fold 301 308 (worker_samples fl fold clock s)
  unfolding worker_samples rank_of by_endpoint ◌==◌
  worker_samples-Series s d =
      Series-append fl fold 301 306 308 _ _ (each_worker-Series s.workers d)
        (Series-freshness fl fold clock (codes "workers") 306 s.collected_at refl refl)
        (omega arith) (omega arith)

  pub collect_workers-Series :
      (c : Cache (WorkerSnapshot fl fold))
      → Different (keys_of c.requests)
      → ((s : WorkerSnapshot fl fold)
          → c.last_good ≡ some s
          → Different (labels_of fl fold s.workers))
      → Series fl fold 300 400 (collect_workers fl fold clock c)
  unfolding collect_workers rank_of by_endpoint ◌==◌
  collect_workers-Series c d labels =
      Series-append fl fold 300 301 400 _ _
        (Series-requests fl fold (codes "workers") 300 c.requests (λ t. refl) d)
        (Series-if_any fl fold clock 301 400 (worker_samples fl fold clock) c.last_good (λ s e.
          Series-wider fl fold 301 301 308 400 _ (worker_samples-Series s (labels s e))
            (omega arith) (omega arith)))
        (omega arith) (omega arith)
