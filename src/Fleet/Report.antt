-- ===== src/Fleet/Report.antt =====
-- ingest_api/services.py, upsert_decoy and upsert_heartbeat: a decoy reports an event or a heartbeat.
use unikernal_honeynet.Base.{
  ℕ, String, ◌||◌, [], ◌∷◌, Option, none, some, str_eq, if◌then◌else◌, truthy,
}
use unikernal_honeynet.Schemas.{text}
use unikernal_honeynet.Models.{Decoy, Deployment, healthy}
use unikernal_honeynet.Session.{Exec, pure, ◌>>=◌, ◌>>◌, fresh_id, flush, Engine}
use unikernal_honeynet.Payload.{Normalized}
use unikernal_honeynet.Fleet.Rows.{
  set_key, find_decoy, find_deployment, add_decoy, write_decoy, add_deployment, write_deployment,
}

-- `_prefer_inventory_value` on texts.
unfoldable pub prefer_inventory_value : String → String → String → String
prefer_inventory_value incoming existing placeholder =
    if str_eq incoming "" || str_eq incoming placeholder
    then (if truthy existing then existing else placeholder)
    else incoming

-- `value or other` on optional texts.
abbrev pub or_endpoint : Option String → Option String → Option String
or_endpoint none other = other
or_endpoint (some s) other = if str_eq s "" then other else some s

unfoldable pub reported_decoy : Engine → ℕ → Normalized → Decoy
reported_decoy engine id n = record {
  id = id;
  decoy_id = n.decoy_id;
  profile = n.profile;
  edge_node_id = n.edge_node_id;
  decoy_version = n.decoy_version;
  collector_version = n.collector_version;
  public_endpoint = n.public_endpoint;
  status = "active";
  health_status = healthy;
  coverage_role = n.coverage_role;
  environment = n.environment;
  site = n.site;
  last_seen_at = engine.now;
  last_heartbeat_at = none;
}

unfoldable pub merged_decoy : Engine → Normalized → Decoy → Decoy
unfolding prefer_inventory_value
merged_decoy engine n decoy = record decoy {
  profile = n.profile;
  edge_node_id = prefer_inventory_value n.edge_node_id decoy.edge_node_id "unknown-edge";
  decoy_version = prefer_inventory_value n.decoy_version decoy.decoy_version "unknown";
  collector_version = n.collector_version;
  public_endpoint = or_endpoint n.public_endpoint decoy.public_endpoint;
  status = "active";
  coverage_role = prefer_inventory_value n.coverage_role decoy.coverage_role "internet_edge";
  environment = prefer_inventory_value n.environment decoy.environment "unknown";
  site = prefer_inventory_value n.site decoy.site "unknown";
  last_seen_at = engine.now;
}

-- The writes to `normalized` after the decoy is known.
unfoldable pub with_inventory : Decoy → Normalized → Normalized
unfolding prefer_inventory_value
with_inventory decoy n = record n {
  coverage_role = prefer_inventory_value n.coverage_role decoy.coverage_role "internet_edge";
  environment = prefer_inventory_value n.environment decoy.environment "unknown";
  site = prefer_inventory_value n.site decoy.site "unknown";
}

unfoldable pub event_deployment : ℕ → Decoy → Normalized → Deployment
event_deployment id decoy n = record {
  id = id;
  decoy_pk = decoy.id;
  edge_node_id = n.edge_node_id;
  profile = n.profile;
  runtime = "unikraft-kvm";
  build_version = n.decoy_version;
  public_endpoint = n.public_endpoint;
  status = "active";
  desired_state = "running";
  observed_state = "running";
  host_port = none;
  runtime_state = "running";
  failure_reason = none;
  site = n.site;
  environment = n.environment;
  coverage_role = n.coverage_role;
  metadata_json = ("collector_version", text n.collector_version) ∷ [];
}

unfoldable pub running_deployment : Normalized → Deployment → Deployment
unfolding set_key
running_deployment n row = record row {
  edge_node_id = n.edge_node_id;
  profile = n.profile;
  build_version = n.decoy_version;
  public_endpoint = or_endpoint n.public_endpoint row.public_endpoint;
  status = "active";
  desired_state = "running";
  observed_state = "running";
  runtime_state = "running";
  site = n.site;
  environment = n.environment;
  coverage_role = n.coverage_role;
  metadata_json = set_key "collector_version" (text n.collector_version) row.metadata_json;
}

unfoldable pub report_deployment : Decoy → Normalized → Option Deployment → Exec (Unit {0})
report_deployment decoy n none = do id ← fresh_id; add_deployment (event_deployment id decoy n)
report_deployment decoy n (some row) = write_deployment row.id (running_deployment n)

-- A new decoy has no primary key before the flush, and so no deployment is looked up for it.
unfoldable pub upsert_found : Engine → Normalized → Option Decoy → Exec (Decoy × Normalized)
upsert_found engine n none = do
  id ← fresh_id
  let decoy = reported_decoy engine id n
  add_decoy decoy
  report_deployment decoy (with_inventory decoy n) none
  flush
  pure (decoy, with_inventory decoy n)
upsert_found engine n (some row) = do
  write_decoy row.id (merged_decoy engine n)
  let decoy = merged_decoy engine n row
  deployment ← find_deployment engine decoy.id
  report_deployment decoy (with_inventory decoy n) deployment
  flush
  pure (decoy, with_inventory decoy n)

-- The decoy, and `normalized` as the call leaves it.
unfoldable pub upsert_decoy : Engine → Normalized → Exec (Decoy × Normalized)
upsert_decoy engine n = do found ← find_decoy n.decoy_id; upsert_found engine n found
