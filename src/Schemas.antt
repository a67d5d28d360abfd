-- ===== src/Schemas.antt =====
-- ingest_api/schemas.py and config.py: what the API receives, after validation, and the settings
-- that the services read. A timestamp is a number of microseconds.
use unikernal_honeynet.Base.{ℕ, String, Bool, List, Option}

-- The values of a JSON object that the services store.
pub data Value : Type 0 where
  text : String → Value
  number : ℕ → Value
  texts : List String → Value
  flag : Bool → Value

abbrev pub Dict : Type 0
Dict = List (String × Value)

-- A time, in microseconds from the start of year 1, and whether it has a zone.
pub record Moment : Type 0 where
  pub instant : ℕ
  pub zoned : Bool

pub record IngestEventIn : Type 0 where
  pub event_id : Option String
  pub ts : Option Moment
  pub decoy_id : String
  pub profile : String
  pub src_ip : Option String
  pub method : String
  pub path : String
  pub user_agent : String
  pub username : String
  pub password : String
  pub suspicious : Bool
  pub tags : List String
  pub normalized_tags : List String
  pub collector_version : Option String
  pub edge_node_id : Option String
  pub decoy_version : Option String
  pub status_code : Option ℕ
  pub latency_ms : Option ℕ
  pub headers_subset : Option Dict
  pub public_endpoint : Option String
  pub request_fingerprint : Option String
  pub source_country : Option String
  pub event_class : Option String
  pub site : Option String
  pub environment : Option String
  pub coverage_role : Option String

pub record HeartbeatIn : Type 0 where
  pub ts : Option ℕ
  pub decoy_id : String
  pub edge_node_id : String
  pub decoy_version : String
  pub public_endpoint : Option String
  pub profile : String
  pub uptime_seconds : ℕ
  pub listen_port : ℕ
  pub site : String
  pub environment : String
  pub coverage_role : String
  pub runtime_state : String
  pub relay_queue_backlog : ℕ
  pub relay_health : String
  pub collector_version : Option String

pub record DetectionUpdateIn : Type 0 where
  pub status : Option String
  pub assigned_to : Option String
  pub triage_notes : Option String

-- One object of the inventory `expected_fleet_json`: the keys that it has, and their texts.
pub record ExpectedDecoy : Type 0 where
  pub decoy_id : Option String
  pub profile : Option String
  pub edge_node_id : Option String
  pub decoy_version : Option String
  pub public_endpoint : Option (Option String)
  pub host_port : Option (Option ℕ)
  pub coverage_role : Option String
  pub environment : Option String
  pub site : Option String

pub record Settings : Type 0 where
  pub ingest_api_key : String
  pub analyst_bearer_token : String
  pub allow_legacy_unauthenticated_ingest : Bool
  pub inline_alert_processing : Bool
  pub oidc_issuer_url : Option String
  pub oidc_audience : Option String
  pub collector_version : String
  pub heartbeat_degraded_seconds : ℕ
  pub heartbeat_silent_seconds : ℕ
  pub detection_window_minutes : ℕ
  pub distributed_window_minutes : ℕ
  pub artifact_bucket : String
  pub expected_fleet : List ExpectedDecoy
