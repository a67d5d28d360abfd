-- ===== src/Samples.antt =====
-- Settings, requests and a database to run the services of ingest_api/services.py with.
use unikernal_honeynet.Base.{ℕ, String, true, false, List, [], ◌∷◌, Option, some, none}
use unikernal_honeynet.Schemas.{IngestEventIn, HeartbeatIn, ExpectedDecoy, Settings}
use unikernal_honeynet.Models.{
  Db, Deployment, Event, empty_db, credential_bruteforce, Decoy, silent,
}
use unikernal_honeynet.Session.{Engine}
use unikernal_honeynet.Detections.Rules.{Emission}

abbrev pub listed_decoy : ExpectedDecoy
listed_decoy = record {
  decoy_id = some "decoy-1";
  profile = some "portal";
  edge_node_id = none;
  decoy_version = none;
  public_endpoint = none;
  host_port = none;
  coverage_role = none;
  environment = none;
  site = some "berlin";
}

abbrev pub sample_settings : Settings
sample_settings = record {
  ingest_api_key = "secret";
  analyst_bearer_token = "token";
  allow_legacy_unauthenticated_ingest = false;
  inline_alert_processing = true;
  oidc_issuer_url = none;
  oidc_audience = none;
  collector_version = "0.2.0";
  heartbeat_degraded_seconds = 180;
  heartbeat_silent_seconds = 300;
  detection_window_minutes = 10;
  distributed_window_minutes = 30;
  artifact_bucket = "artifacts";
  expected_fleet = listed_decoy ∷ [];
}

abbrev head? : List Deployment → Option Deployment
head? [] = none
head? (row ∷ rows) = some row

abbrev pub sample_engine : Engine
sample_engine = record {
  now = 10000000000;
  uuid4 = λ n. "00000000-0000-4000-8000-000000000000";
  sha1_hex = λ s. s;
  latest = head?;
  oldest_first = λ rows. rows;
  newest_detections = λ rows. rows;
}

abbrev pub login_attempt : IngestEventIn
login_attempt = record {
  event_id = some "e4";
  ts = some (record { instant = 9990000000; zoned = true });
  decoy_id = "decoy-1";
  profile = "portal";
  src_ip = some "203.0.113.9";
  method = "POST";
  path = "/login";
  user_agent = "curl";
  username = "root";
  password = "toor";
  suspicious = true;
  tags = [];
  normalized_tags = [];
  collector_version = none;
  edge_node_id = none;
  decoy_version = none;
  status_code = none;
  latency_ms = none;
  headers_subset = none;
  public_endpoint = none;
  request_fingerprint = some "f";
  source_country = none;
  event_class = some "credential";
  site = none;
  environment = none;
  coverage_role = none;
}

abbrev pub login_row : ℕ → String → Event
login_row id event_id = record {
  id = id;
  event_id = event_id;
  occurred_at = 9990000000;
  decoy_pk = 0;
  decoy_id = "decoy-1";
  profile = "portal";
  edge_node_id = "edge-1";
  decoy_version = "1";
  collector_version = "0.2.0";
  site = "berlin";
  environment = "prod";
  coverage_role = "internet_edge";
  src_ip = "203.0.113.9";
  source_country = none;
  method = "POST";
  path = "/login";
  request_fingerprint = "f";
  event_class = "credential";
  status_code = 401;
  user_agent = "curl";
  username = event_id;
  password = "toor";
  suspicious = true;
  latency_ms = 0;
  tags = [];
  normalized_tags = [];
  headers_subset = [];
  raw_json = login_attempt;
  alert_processed = false;
  zoned = true;
}

-- Three pending login attempts of one source.
abbrev pub pending_logins : List Event
pending_logins = login_row 1 "e1" ∷ login_row 2 "e2" ∷ login_row 3 "e3" ∷ []

abbrev pub sample_db : Db
sample_db = record empty_db { next_id = 4; events = pending_logins }

abbrev pub bruteforce : Emission
bruteforce = record {
  detection_type = credential_bruteforce;
  title = "Credential Brute Force";
  summary = "";
  evidence = [];
}

abbrev pub sample_heartbeat : HeartbeatIn
sample_heartbeat = record {
  ts = none;
  decoy_id = "decoy-2";
  edge_node_id = "edge-1";
  decoy_version = "1";
  public_endpoint = none;
  profile = "portal";
  uptime_seconds = 5;
  listen_port = 8080;
  site = "berlin";
  environment = "prod";
  coverage_role = "internet_edge";
  runtime_state = "running";
  relay_queue_backlog = 0;
  relay_health = "healthy";
  collector_version = none;
}

abbrev pub sample_decoy : Decoy
sample_decoy = record {
  id = 0;
  decoy_id = "decoy-1";
  profile = "portal";
  edge_node_id = "edge-1";
  decoy_version = "1";
  collector_version = "0.2.0";
  public_endpoint = none;
  status = "active";
  health_status = silent;
  coverage_role = "dmz";
  environment = "prod";
  site = "berlin";
  last_seen_at = 0;
  last_heartbeat_at = none;
}
