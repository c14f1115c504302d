-- ===== src/Server/Laws.antt =====
-- The routes of a valid configuration, and readiness against the polls of the account.
use braiins_pool_exporter.Base.{
  ◌≡◌, refl, Bool, true, false, not, ◌&&◌, ◌||◌, List, Option, none, some, arith, if◌then◌else◌,
  or-false,
}
use braiins_pool_exporter.Base.Different.{Different}
use braiins_pool_exporter.Base.Result.{Result}
use braiins_pool_exporter.Base.Time.{Time}
use braiins_pool_exporter.Text.{Text, codes, ◌==◌, contains}
use braiins_pool_exporter.Text.Laws.{is_not}
use braiins_pool_exporter.Config.{Config, Environment}
use braiins_pool_exporter.Config.Laws.{IsValid}
use braiins_pool_exporter.Collector.Cache.{Cache, ready}
use braiins_pool_exporter.Collector.Cache.Trace.{Event, cache_after, latest, cache_after-Refines}
use braiins_pool_exporter.Collector.Collect.Keys.{keys_of}
use braiins_pool_exporter.Server.{
  SelfMetrics, is_ready, ready_gauge, readiness, routes, status_text, respond,
}

abbrev exists : {S : Type 0} → Option S → Bool
exists none = false
exists (some s) = true

-- Under a valid configuration the server's four paths are different.
pub routes-Different :
    (env : Environment) (fold : Text → Text) (c : Config)
    → IsValid env fold c
    → Different (keys_of (routes c.telemetry_path))
unfolding routes contains ◌==◌
routes-Different env fold c valid =
    let (a, rest) = or-false (c.telemetry_path == codes "/-/healthy") _ valid.own_path in
    let (b, last) = or-false (c.telemetry_path == codes "/-/ready") _ rest in
    let (d, _) = or-false (c.telemetry_path == codes "/version") _ last in
    (
      (is_not _ _ a, (is_not _ _ b, (is_not _ _ d, tt))),
      (
        (
          is_not (codes "/-/healthy") (codes "/-/ready") refl,
          (is_not (codes "/-/healthy") (codes "/version") refl, tt),
        ),
        ((is_not (codes "/-/ready") (codes "/version") refl, tt), (tt, tt)),
      ),
    )

ready-exists : {S : Type 0} (c : Cache S) (o : Option S) → c.last_good ≡ o → ready c ≡ exists o
unfolding ready
ready-exists c none h = rw h refl
ready-exists c (some s) h = rw h refl

respond_by :
    (m : SelfMetrics) (account : Bool)
    → let fit = m.initialized && (not m.requires_account || account) in
      (respond account m readiness
        ≡ (if fit then status_text 200 (codes "ready") else status_text 503 (codes "not_ready")))
      × (ready_gauge account m ≡ (if fit then 1 else 0))
unfolding respond is_ready ready_gauge
respond_by m account = ground arith

module _ {R B S : Type 0} (build : Time → R → Result B S) (invalid_category : B → Text)
    (collected_at : S → Time) where
  -- Behind any polls of the account, `/-/ready` answers 200 and the gauge shows 1 exactly if the exporter
  -- is initialized and either requires no account or one of the polls has succeeded, and 503 and 0
  -- otherwise.
  pub respond-readiness :
      (m : SelfMetrics) (trace : List (Event build invalid_category collected_at))
      → let account = ready (cache_after build invalid_category collected_at trace) in
        let fit =
          m.initialized
          && (not m.requires_account
              || exists (latest build invalid_category collected_at trace)) in
        (respond account m readiness
          ≡ (if fit then status_text 200 (codes "ready") else status_text 503 (codes "not_ready")))
        × (ready_gauge account m ≡ (if fit then 1 else 0))
  respond-readiness m trace =
      let account = ready (cache_after build invalid_category collected_at trace) in
      let same : account ≡ exists (latest build invalid_category collected_at trace) =
        ready-exists _ _ (cache_after-Refines build invalid_category collected_at trace).snapshot in
      rw same (respond_by m _)
