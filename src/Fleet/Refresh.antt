-- ===== src/Fleet/Refresh.antt =====
-- ingest_api/services.py, refresh_fleet_health: the health of decoys and their deployments.
use unikernal_honeynet.Base.{ℕ, ◌+◌, ◌*◌, String, Option, none, some, leb, if◌then◌else◌, is_some}
use unikernal_honeynet.Schemas.{Settings}
use unikernal_honeynet.Models.{Decoy, Deployment, Health, healthy, degraded, silent}
use unikernal_honeynet.Session.{Exec, pure, ◌>>=◌, ◌>>◌, gets, for_each, flush, Engine}
use unikernal_honeynet.Payload.{or_default}
use unikernal_honeynet.Fleet.Rows.{write_decoy, write_deployment, find_deployment}

-- Health by the age of the last heartbeat, in microseconds of a second.
unfoldable pub health_of : Settings → ℕ → Option ℕ → Health
health_of settings now none = silent
health_of settings now (some heartbeat) =
    if leb (heartbeat + settings.heartbeat_silent_seconds * 1_000_000) now
    then silent
    else if leb (heartbeat + settings.heartbeat_degraded_seconds * 1_000_000) now
    then degraded
    else healthy

-- `if not deployment.failure_reason: ...`
unfoldable pub missing_reason : Option String → Option String
missing_reason reason = some (or_default reason "Heartbeat missing")

unfoldable pub observe : Option ℕ → Health → Deployment → Deployment
unfolding missing_reason
observe heartbeat health row = elim health [
  | silent ↦ record row {
    observed_state = if is_some heartbeat then "running" else "missing";
    runtime_state = "silent";
    failure_reason = missing_reason row.failure_reason;
  }
  | _ ↦ record row {
    observed_state = if is_some heartbeat then "running" else "missing";
    runtime_state = "running";
    failure_reason = none;
  }
]

unfoldable pub observe_latest : Option ℕ → Health → Option Deployment → Exec (Unit {0})
unfolding observe
observe_latest heartbeat state none = pure tt
observe_latest heartbeat health (some deployment) =
    write_deployment deployment.id (observe heartbeat health)

unfoldable pub refresh_decoy : Settings → Engine → Decoy → Exec (Unit {0})
unfolding health_of observe_latest
refresh_decoy settings engine decoy = do
  let health = health_of settings engine.now decoy.last_heartbeat_at
  write_decoy decoy.id (λ row. record row { health_status = health })
  deployment ← find_deployment engine decoy.id
  observe_latest decoy.last_heartbeat_at health deployment

unfoldable pub refresh_fleet_health : Settings → Engine → Exec (Unit {0})
unfolding refresh_decoy
refresh_fleet_health settings engine = do
  decoys ← gets (λ db. db.decoys)
  for_each decoys (refresh_decoy settings engine)
  flush
