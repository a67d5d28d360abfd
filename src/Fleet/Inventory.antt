-- ===== src/Fleet/Inventory.antt =====
-- ingest_api/services.py, reconcile_expected_fleet: the inventory is written into the fleet.
use unikernal_honeynet.Base.{
  ℕ, String, true, [], ◌∷◌, Option, none, some, if◌then◌else◌, truthy, get_or,
}
use unikernal_honeynet.Schemas.{flag, ExpectedDecoy, Settings}
use unikernal_honeynet.Models.{Decoy, Deployment, silent}
use unikernal_honeynet.Session.{Exec, pure, ◌>>=◌, ◌>>◌, for_each, fresh_id, flush, Engine}
use unikernal_honeynet.Payload.{or_default}
use unikernal_honeynet.Fleet.Rows.{
  set_key, find_decoy, find_deployment, add_decoy, write_decoy, add_deployment, write_deployment,
}

-- A decoy that the inventory names and no row has.
unfoldable pub expected_decoy : Settings → Engine → ℕ → String → ExpectedDecoy → Decoy
expected_decoy settings engine id decoy_id expected = record {
  id = id;
  decoy_id = decoy_id;
  profile = get_or expected.profile "unknown";
  edge_node_id = get_or expected.edge_node_id "inventory";
  decoy_version = get_or expected.decoy_version "expected";
  collector_version = settings.collector_version;
  public_endpoint = get_or expected.public_endpoint none;
  status = "expected";
  health_status = silent;
  coverage_role = get_or expected.coverage_role "internet_edge";
  environment = get_or expected.environment "unknown";
  site = get_or expected.site "unknown";
  last_seen_at = engine.now;
  last_heartbeat_at = none;
}

-- The inventory's keys replace a decoy's columns; the columns of missing keys stay.
unfoldable pub inventory_decoy : ExpectedDecoy → Decoy → Decoy
inventory_decoy expected decoy = record decoy {
  profile = get_or expected.profile decoy.profile;
  edge_node_id = get_or expected.edge_node_id decoy.edge_node_id;
  public_endpoint = get_or expected.public_endpoint decoy.public_endpoint;
  coverage_role = get_or expected.coverage_role decoy.coverage_role;
  environment = get_or expected.environment decoy.environment;
  site = get_or expected.site decoy.site;
}

unfoldable pub expected_deployment : ℕ → ExpectedDecoy → Decoy → Deployment
expected_deployment id expected decoy = record {
  id = id;
  decoy_pk = decoy.id;
  edge_node_id = get_or expected.edge_node_id decoy.edge_node_id;
  profile = get_or expected.profile decoy.profile;
  runtime = "unikraft-kvm";
  build_version = get_or expected.decoy_version decoy.decoy_version;
  public_endpoint = get_or expected.public_endpoint none;
  status = "expected";
  desired_state = "running";
  observed_state = "missing";
  host_port = get_or expected.host_port none;
  runtime_state = "not_reported";
  failure_reason = none;
  site = get_or expected.site decoy.site;
  environment = get_or expected.environment decoy.environment;
  coverage_role = get_or expected.coverage_role decoy.coverage_role;
  metadata_json = ("inventory_managed", flag true) ∷ [];
}

unfoldable pub inventory_deployment : ExpectedDecoy → Deployment → Deployment
unfolding set_key
inventory_deployment expected row = record row {
  edge_node_id = get_or expected.edge_node_id row.edge_node_id;
  profile = get_or expected.profile row.profile;
  build_version = get_or expected.decoy_version row.build_version;
  public_endpoint = get_or expected.public_endpoint row.public_endpoint;
  desired_state = "running";
  host_port = get_or expected.host_port row.host_port;
  site = get_or expected.site row.site;
  environment = get_or expected.environment row.environment;
  coverage_role = get_or expected.coverage_role row.coverage_role;
  metadata_json = set_key "inventory_managed" (flag true) row.metadata_json;
}

unfoldable pub reconcile_decoy :
    Settings → Engine → String → ExpectedDecoy → Option Decoy → Exec Decoy
reconcile_decoy settings engine decoy_id expected none = do
  id ← fresh_id
  let decoy = expected_decoy settings engine id decoy_id expected
  add_decoy decoy
  flush
  pure decoy
reconcile_decoy settings engine decoy_id expected (some decoy) = do
  write_decoy decoy.id (inventory_decoy expected)
  pure (inventory_decoy expected decoy)

unfoldable pub reconcile_deployment : ExpectedDecoy → Decoy → Option Deployment → Exec (Unit {0})
reconcile_deployment expected decoy none = do
  id ← fresh_id
  add_deployment (expected_deployment id expected decoy)
reconcile_deployment expected decoy (some row) =
    write_deployment row.id (inventory_deployment expected)

unfoldable pub reconcile_named : Settings → Engine → String → ExpectedDecoy → Exec (Unit {0})
reconcile_named settings engine decoy_id expected = do
  found ← find_decoy decoy_id
  decoy ← reconcile_decoy settings engine decoy_id expected found
  deployment ← find_deployment engine decoy.id
  reconcile_deployment expected decoy deployment

-- The loop's body: an entry without a decoy_id is skipped.
unfoldable pub reconcile_entry : Settings → Engine → ExpectedDecoy → Exec (Unit {0})
reconcile_entry settings engine expected =
    if truthy (or_default expected.decoy_id "")
    then reconcile_named settings engine (or_default expected.decoy_id "") expected
    else pure tt

unfoldable pub reconcile_expected_fleet : Settings → Engine → Exec (Unit {0})
reconcile_expected_fleet settings engine = do
  for_each settings.expected_fleet (reconcile_entry settings engine)
  flush
