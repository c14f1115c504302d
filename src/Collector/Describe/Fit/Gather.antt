-- ===== src/Collector/Describe/Fit/Gather.antt =====
-- What a scrape gathers from the collectors that are registered.
use mathlib.Core.List.{Mem, Mem-prop, mem-append, mem-append_left, mem-append_right}
use mathlib.Core.Logic.Or
use braiins_pool_exporter.Base.{
  ◌≡◌, refl, Bool, true, false, ◌||◌, List, [], ◌++◌, map, All-append, if◌then◌else◌, Bool-cases,
  inl, inr,
}
use braiins_pool_exporter.Base.Different.{Different, All-mono}
use braiins_pool_exporter.Base.Float.{Float64}
use braiins_pool_exporter.Base.Time.{Time}
use braiins_pool_exporter.Text.{Text, ◌==◌, contains}
use braiins_pool_exporter.Config.{Config}
use braiins_pool_exporter.Collector.Cache.{Cache}
use braiins_pool_exporter.Collector.Pool.{PoolSnapshot}
use braiins_pool_exporter.Collector.Account.{AccountSnapshot}
use braiins_pool_exporter.Collector.Workers.{WorkerSnapshot}
use braiins_pool_exporter.Collector.History.Poll.{History}
use braiins_pool_exporter.Collector.Collect.{Desc, Key, Sample, collect_pool, collect_account}
use braiins_pool_exporter.Collector.Collect.Workers.{collect_workers}
use braiins_pool_exporter.Collector.Collect.History.{collect_history}
use braiins_pool_exporter.Collector.Collect.Keys.{all_different, all_different-Different}
use braiins_pool_exporter.Collector.Describe.{
  metric_name, self_names, registered, describe_pool, describe_account, describe_workers,
  describe_history,
}
use braiins_pool_exporter.Collector.Describe.Laws.{IsFit, AreFit}
use braiins_pool_exporter.Collector.Describe.Fit.{
  pool_descs, collect_pool-AreFit, collect_account-AreFit,
}
use braiins_pool_exporter.Collector.Describe.Fit.Workers.{collect_workers-AreFit}
use braiins_pool_exporter.Collector.Describe.Fit.Past.{collect_history-AreFit}

-- Every descriptor of the first list is in the second.
abbrev Sub : List Desc → List Desc → Type 0
Sub xs ys = (d : Desc) → Mem d xs → Mem d ys

Sub-append : (xs ys zs : List Desc) → Sub xs zs → Sub ys zs → Sub (xs ++ ys) zs
Sub-append xs ys zs f g d m = Or.elim Mem-prop (mem-append.0 m) (f d) (g d)

all_names_different :
    (c : Config) → all_different (self_names ++ map metric_name (registered c)) ≡ true
unfolding registered metric_name describe_pool describe_account describe_workers describe_history
    all_different contains ◌==◌
all_names_different c = elim (Bool-cases (c.token == [])) [
  | inl off ↦ rw off refl
  | inr on ↦ elim (Bool-cases c.worker_metrics_enabled) [
    | inl workers ↦ elim (Bool-cases (c.rewards_enabled || c.payouts_enabled)) [
      | inl history ↦ rw (on, workers, history) refl
      | inr no_history ↦ rw (on, workers, no_history) refl
    ]
    | inr alone ↦ elim (Bool-cases (c.rewards_enabled || c.payouts_enabled)) [
      | inl history ↦ rw (on, alone, history) refl
      | inr no_history ↦ rw (on, alone, no_history) refl
    ]
  ]
]

-- The metrics that the registry holds under a configuration have different names.
pub registered-Different : (c : Config) → Different (self_names ++ map metric_name (registered c))
registered-Different c =
    all_different-Different (self_names ++ map metric_name (registered c)) (all_names_different c)

module _ (fl : Float64) (fold : Text → Text) (clock : Key → Time) where
  AreFit-Sub :
      (xs ys : List Desc) (samples : List (Sample fl fold))
      → Sub xs ys
      → AreFit fl fold xs samples
      → AreFit fl fold ys samples
  AreFit-Sub xs ys samples sub h =
      All-mono (IsFit fl fold xs) (IsFit fl fold ys) (λ s fit. (fit.0, sub s.key.desc fit.1))
        samples h

  -- A collector that is not registered describes nothing and sends nothing.
  AreFit-if :
      (b : Bool) (own : List Desc) (samples : List (Sample fl fold))
      → AreFit fl fold (own ++ describe_account) samples
      → AreFit fl fold ((if b then own else []) ++ describe_account) (if b then samples else [])
  AreFit-if true own samples h = h
  AreFit-if false own samples h = tt

  AreFit-all :
      (ws hs : List Desc) (pool account workers history : List (Sample fl fold))
      → AreFit fl fold pool_descs pool
      → AreFit fl fold describe_account account
      → AreFit fl fold (ws ++ describe_account) workers
      → AreFit fl fold (hs ++ describe_account) history
      → AreFit fl fold
          (describe_pool ++ (describe_account ++ (ws ++ hs)))
          (pool ++ (account ++ (workers ++ history)))
  AreFit-all ws hs pool account workers history hp ha hw hh =
      let full = describe_pool ++ (describe_account ++ (ws ++ hs)) in
      let of_account : Sub describe_account full =
        λ d m. mem-append_right describe_pool (mem-append_left (ws ++ hs) m) in
      let of_rest : Sub (ws ++ hs) full =
        λ d m. mem-append_right describe_pool (mem-append_right describe_account m) in
      let with_account = λ (xs : List Desc) (sub : Sub xs full).
        Sub-append xs describe_account full sub of_account in
      let wide_pool =
        AreFit-Sub pool_descs full pool
          (with_account describe_pool (λ d m. mem-append_left (describe_account ++ (ws ++ hs)) m))
          hp in
      let wide_account = AreFit-Sub describe_account full account of_account ha in
      let wide_workers =
        AreFit-Sub (ws ++ describe_account) full workers
          (with_account ws (λ d m. of_rest d (mem-append_left hs m))) hw in
      let wide_history =
        AreFit-Sub (hs ++ describe_account) full history
          (with_account hs (λ d m. of_rest d (mem-append_right ws m))) hh in
      All-append (IsFit fl fold full) pool (account ++ (workers ++ history)) wide_pool (
        All-append (IsFit fl fold full) account (workers ++ history) wide_account
          (All-append (IsFit fl fold full) workers history wide_workers wide_history))

  -- What the collectors send that a configuration registers.
  abbrev pub scrape :
      Config
      → Cache (PoolSnapshot fl fold)
      → Cache (AccountSnapshot fl fold)
      → Cache (WorkerSnapshot fl fold)
      → History
      → List (Sample fl fold)
  scrape c pool account workers history =
      if c.token == []
      then []
      else collect_pool fl fold clock pool
        ++ (collect_account fl fold clock account
            ++ ((if c.worker_metrics_enabled then collect_workers fl fold clock workers else [])
                ++ (if c.rewards_enabled || c.payouts_enabled
                    then collect_history fl fold clock history
                    else [])))

  -- Whatever the collectors hold that a configuration registers, each sample that they send has as many
  -- values of labels as its metric has labels, and its metric is one that a registered collector
  -- describes.
  pub scrape-AreFit :
      (c : Config) (pool : Cache (PoolSnapshot fl fold)) (account : Cache (AccountSnapshot fl fold))
      (workers : Cache (WorkerSnapshot fl fold)) (history : History)
      → AreFit fl fold (registered c) (scrape c pool account workers history)
  unfolding registered
  scrape-AreFit c pool account workers history = elim (Bool-cases (c.token == [])) [
    | inl off ↦ rw off tt
    | inr on ↦ rw on (
        AreFit-all _ _ _ _ _ _ (collect_pool-AreFit fl fold clock pool)
          (collect_account-AreFit fl fold clock account)
          (AreFit-if c.worker_metrics_enabled describe_workers
            (collect_workers fl fold clock workers) (collect_workers-AreFit fl fold clock workers))
          (AreFit-if (c.rewards_enabled || c.payouts_enabled) describe_history
            (collect_history fl fold clock history) (collect_history-AreFit fl fold clock history)))
  ]
