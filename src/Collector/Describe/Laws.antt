-- ===== src/Collector/Describe/Laws.antt =====
-- The samples against the descriptors.
use mathlib.Core.List.{Mem}
use braiins_pool_exporter.Base.{
  ◌+◌, ◌≡◌, refl, ◌∙◌, List, [], ◌∷◌, ◌++◌, Option, none, some, All, All-append, length,
  length-append,
}
use braiins_pool_exporter.Base.Float.{Float64}
use braiins_pool_exporter.Base.Time.{Time}
use braiins_pool_exporter.Text.{Text, Map, lookup}
use braiins_pool_exporter.Collector.Counters.{Counters}
use braiins_pool_exporter.Collector.Collect.{
  Desc, Key, Sample, result_samples, request_samples, window_samples, optional, freshness, if_any,
  account_states, sorted_counter_keys, api_requests_total_desc, api_last_success_desc,
  data_age_desc, account_workers_desc,
}
use braiins_pool_exporter.Collector.Describe.{label_names}

-- The descriptors of the samples about the requests, which the account describes for all collectors.
pub record Shared (descs : List Desc) : Type 0 where
  pub requests : Mem api_requests_total_desc descs
  pub success : Mem api_last_success_desc descs
  pub ages : Mem data_age_desc descs

module _ (fl : Float64) (fold : Text → Text) (descs : List Desc) where
  -- As many values of labels as the metric has labels, and the metric is described.
  abbrev pub IsFit : Sample fl fold → Type 0
  IsFit s = (length s.key.labels ≡ length (label_names s.key.desc)) × Mem s.key.desc descs

  abbrev pub AreFit : List (Sample fl fold) → Type 0
  AreFit = All IsFit

  result_samples-AreFit :
      (endpoint : Text) (requests : Counters) (results : List Text)
      → Mem api_requests_total_desc descs
      → AreFit (result_samples fl fold endpoint requests results)
  unfolding result_samples label_names
  result_samples-AreFit endpoint requests [] m = tt
  result_samples-AreFit endpoint requests (result ∷ results) m =
      ((refl, m), result_samples-AreFit endpoint requests results m)

  pub optional-AreFit :
      (desc : Desc) (labels : List Text) (value : Option fl.F)
      → length labels ≡ length (label_names desc)
      → Mem desc descs
      → AreFit (optional fl fold desc labels value)
  optional-AreFit desc labels none e m = tt
  optional-AreFit desc labels (some value) e m = ((e, m), tt)

  pub window_samples-AreFit :
      (desc : Desc) (labels windows : List Text) (values : Map fl.F)
      → length labels + 1 ≡ length (label_names desc)
      → Mem desc descs
      → AreFit (window_samples fl fold desc labels windows values)
  unfolding window_samples
  window_samples-AreFit desc labels [] values e m = tt
  window_samples-AreFit desc labels (window ∷ windows) values e m =
      All-append IsFit _ _
        (optional-AreFit desc (labels ++ window ∷ []) (lookup values window)
          (length-append labels (window ∷ []) ∙ e) m)
        (window_samples-AreFit desc labels windows values e m)

  pub request_samples-AreFit :
      (endpoint : Text) (requests : Counters)
      → Shared descs
      → AreFit (request_samples fl fold endpoint requests)
  unfolding request_samples
  request_samples-AreFit endpoint requests m =
      result_samples-AreFit endpoint requests (sorted_counter_keys requests) m.requests

  module _ (clock : Key → Time) where
    pub freshness-AreFit :
        (endpoint : Text) (at : Time) → Shared descs → AreFit (freshness fl fold clock endpoint at)
    unfolding freshness label_names
    freshness-AreFit endpoint at m = ((refl, m.success), ((refl, m.ages), tt))

    pub if_any-AreFit :
        {S : Type 0} (samples : S → List (Sample fl fold)) (s : Option S)
        → ((t : S) → AreFit (samples t))
        → AreFit (if_any fl fold clock samples s)
    if_any-AreFit samples none h = tt
    if_any-AreFit samples (some t) h = h t

    pub account_states-AreFit :
        (workers : Map fl.F) (states : List Text)
        → Mem account_workers_desc descs
        → AreFit (account_states fl fold clock workers states)
    unfolding account_states label_names
    account_states-AreFit workers [] m = tt
    account_states-AreFit workers (state ∷ states) m =
        ((refl, m), account_states-AreFit workers states m)
