-- ===== src/Server.antt =====
-- internal/server/server.go and internal/collector/self.go: the routes of the HTTP server, what they
-- answer, and the readiness that one of them reports.
pub mod Laws
pub mod Tests
use braiins_pool_exporter.Base.{ℕ, Bool, true, false, not, ◌&&◌, ◌||◌, [], ◌∷◌, if◌then◌else◌}
use braiins_pool_exporter.Text.{Text, Map, codes}

-- The metrics of the exporter itself, as far as they change. The function that is required is
-- `Ready` of the account's metrics, and what it tells at a request is an argument of `is_ready`.
pub record SelfMetrics : Type 0 where
  pub initialized : Bool
  pub requires_account : Bool

abbrev pub new_self_metrics : SelfMetrics
new_self_metrics = record { initialized = false; requires_account = false }

unfoldable pub set_ready : Bool → SelfMetrics → SelfMetrics
set_ready ready m = record { initialized = ready; requires_account = m.requires_account }

unfoldable pub require_account_ready : SelfMetrics → SelfMetrics
require_account_ready m = record { initialized = m.initialized; requires_account = true }

unfoldable pub is_ready : (account_is_ready : Bool) → SelfMetrics → Bool
is_ready account_is_ready m =
    if not m.initialized then false else not m.requires_account || account_is_ready

-- The gauge `braiins_pool_exporter_ready`.
unfoldable pub ready_gauge : (account_is_ready : Bool) → SelfMetrics → ℕ
unfolding is_ready
ready_gauge account_is_ready m = if is_ready account_is_ready m then 1 else 0

pub data Handler : Type 0 where
  exposition healthy readiness build_info : Handler

-- What `New` registers, in its order.
unfoldable pub routes : Text → Map Handler
routes telemetry_path =
    (telemetry_path, exposition)
    ∷ (codes "/-/healthy", healthy)
    ∷ (codes "/-/ready", readiness)
    ∷ (codes "/version", build_info)
    ∷ []

-- A status with a body: the text of a `status`, the build information, or what promhttp writes, which
-- also chooses its status.
pub data Reply : Type 0 where
  status_text : (status_code : ℕ) → (state : Text) → Reply
  build_reply : (status_code : ℕ) → Reply
  by_promhttp : Reply

unfoldable pub respond : (account_is_ready : Bool) → SelfMetrics → Handler → Reply
unfolding is_ready
respond account_is_ready m exposition = by_promhttp
respond account_is_ready m healthy = status_text 200 (codes "healthy")
respond account_is_ready m readiness =
    if not (is_ready account_is_ready m)
    then status_text 503 (codes "not_ready")
    else status_text 200 (codes "ready")
respond account_is_ready m build_info = build_reply 200
