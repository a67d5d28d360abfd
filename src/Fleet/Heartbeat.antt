-- ===== src/Fleet/Heartbeat.antt =====
-- ingest_api/services.py, upsert_heartbeat: a decoy's relay reports that it lives.
use unikernal_honeynet.Base.{ℕ, [], ◌∷◌, Option, none, some, get_or}
use unikernal_honeynet.Schemas.{text, number, HeartbeatIn, Settings}
use unikernal_honeynet.Models.{Decoy, Deployment, healthy}
use unikernal_honeynet.Columns.{heartbeat_fits}
use unikernal_honeynet.Session.{
  data_error, require, Exec, pure, ◌>>=◌, ◌>>◌, fresh_id, flush, Engine,
}
use unikernal_honeynet.Payload.{or_default}
use unikernal_honeynet.Fleet.Rows.{
  set_key, find_decoy, find_deployment, add_decoy, write_decoy, add_deployment, write_deployment,
}
use unikernal_honeynet.Fleet.Inventory.{reconcile_expected_fleet}
use unikernal_honeynet.Fleet.Report.{or_endpoint}

unfoldable pub beating_decoy : Settings → ℕ → ℕ → HeartbeatIn → Decoy
beating_decoy settings id ts p = record {
  id = id;
  decoy_id = p.decoy_id;
  profile = p.profile;
  edge_node_id = p.edge_node_id;
  decoy_version = p.decoy_version;
  collector_version = or_default p.collector_version settings.collector_version;
  public_endpoint = p.public_endpoint;
  status = "active";
  health_status = healthy;
  coverage_role = p.coverage_role;
  environment = p.environment;
  site = p.site;
  last_seen_at = ts;
  last_heartbeat_at = some ts;
}

unfoldable pub beaten_decoy : ℕ → HeartbeatIn → Decoy → Decoy
beaten_decoy ts p decoy = record decoy {
  profile = p.profile;
  edge_node_id = p.edge_node_id;
  decoy_version = p.decoy_version;
  collector_version = or_default p.collector_version decoy.collector_version;
  public_endpoint = or_endpoint p.public_endpoint decoy.public_endpoint;
  status = "active";
  health_status = healthy;
  coverage_role = p.coverage_role;
  environment = p.environment;
  site = p.site;
  last_seen_at = ts;
  last_heartbeat_at = some ts;
}

unfoldable pub heartbeat_deployment : ℕ → Decoy → HeartbeatIn → Deployment
heartbeat_deployment id decoy p = record {
  id = id;
  decoy_pk = decoy.id;
  edge_node_id = p.edge_node_id;
  profile = p.profile;
  runtime = "unikraft-kvm";
  build_version = p.decoy_version;
  public_endpoint = p.public_endpoint;
  status = "active";
  desired_state = "running";
  observed_state = "running";
  host_port = none;
  runtime_state = p.runtime_state;
  failure_reason = none;
  site = p.site;
  environment = p.environment;
  coverage_role = p.coverage_role;
  metadata_json =
      ("relay_health", text p.relay_health)
      ∷ ("relay_queue_backlog", number p.relay_queue_backlog)
      ∷ [];
}

unfoldable pub beaten_deployment : HeartbeatIn → Deployment → Deployment
unfolding set_key
beaten_deployment p row = record row {
  edge_node_id = p.edge_node_id;
  profile = p.profile;
  build_version = p.decoy_version;
  public_endpoint = or_endpoint p.public_endpoint row.public_endpoint;
  status = "active";
  desired_state = "running";
  observed_state = "running";
  runtime_state = p.runtime_state;
  site = p.site;
  environment = p.environment;
  coverage_role = p.coverage_role;
  metadata_json = set_key "listen_port" (number p.listen_port) (
      set_key "uptime_seconds" (number p.uptime_seconds) (
        set_key "relay_queue_backlog" (number p.relay_queue_backlog)
          (set_key "relay_health" (text p.relay_health) row.metadata_json)));
}

unfoldable pub beat_found : Settings → ℕ → HeartbeatIn → Option Decoy → Exec Decoy
beat_found settings ts p none = do
  id ← fresh_id
  let decoy = beating_decoy settings id ts p
  add_decoy decoy
  flush
  pure decoy
beat_found settings ts p (some row) = do
  write_decoy row.id (beaten_decoy ts p)
  pure (beaten_decoy ts p row)

unfoldable pub beat_deployment : Decoy → HeartbeatIn → Option Deployment → Exec (Unit {0})
beat_deployment decoy p none = do id ← fresh_id; add_deployment (heartbeat_deployment id decoy p)
beat_deployment decoy p (some row) = write_deployment row.id (beaten_deployment p)

-- Its flushes refuse a value that is too long for its column.
unfoldable pub upsert_heartbeat : Settings → Engine → HeartbeatIn → Exec Decoy
upsert_heartbeat settings engine p = do
  reconcile_expected_fleet settings engine
  found ← find_decoy p.decoy_id
  require (heartbeat_fits p) data_error
  decoy ← beat_found settings (get_or p.ts engine.now) p found
  deployment ← find_deployment engine decoy.id
  beat_deployment decoy p deployment
  flush
  pure decoy
