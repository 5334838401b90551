-- ===== src/Health.antt =====
-- app/routers/health.py: GET /health.
use voip_platform.Base.{Bool, not, ◌&&◌, if◌then◌else◌}
use voip_platform.Base.Text.{Text, codes}
use voip_platform.Core.{Env, database_ping, redis_ping}

pub record HealthReport : Type 0 where
  pub status : Text
  pub database : Text
  pub redis : Text

abbrev component_status : Bool → Text
component_status failed = if failed then codes "error" else codes "ok"

-- The version, a setting, is left out.
unfoldable pub health_check : {F : Type 0} → Env F → HealthReport
health_check env =
    let database_fails = env.fails database_ping in
    let redis_fails = env.fails redis_ping in
    record {
      status = if not database_fails && not redis_fails then codes "healthy" else codes "degraded";
      database = component_status database_fails;
      redis = component_status redis_fails;
    }
