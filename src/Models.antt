-- ===== src/Models.antt =====
-- ingest_api/models.py: the rows of the tables, and the contents of a database. A foreign key is the
-- number of a row; the columns that only the ORM's hooks write (created_at, updated_at, received_at,
-- launched_at) are left out.
use unikernal_honeynet.Base.{ℕ, String, Bool, List, [], Option}
use unikernal_honeynet.Schemas.{Dict, IngestEventIn}

pub data Health : Type 0 where
  healthy degraded silent : Health

pub record Decoy : Type 0 where
  pub id : ℕ
  pub decoy_id : String
  pub profile : String
  pub edge_node_id : String
  pub decoy_version : String
  pub collector_version : String
  pub public_endpoint : Option String
  pub status : String
  pub health_status : Health
  pub coverage_role : String
  pub environment : String
  pub site : String
  pub last_seen_at : ℕ
  pub last_heartbeat_at : Option ℕ

pub record Deployment : Type 0 where
  pub id : ℕ
  pub decoy_pk : ℕ
  pub edge_node_id : String
  pub profile : String
  pub runtime : String
  pub build_version : String
  pub public_endpoint : Option String
  pub status : String
  pub desired_state : String
  pub observed_state : String
  pub host_port : Option ℕ
  pub runtime_state : String
  pub failure_reason : Option String
  pub site : String
  pub environment : String
  pub coverage_role : String
  pub metadata_json : Dict

pub record Event : Type 0 where
  pub id : ℕ
  pub event_id : String
  pub occurred_at : ℕ
  pub decoy_pk : ℕ
  pub decoy_id : String
  pub profile : String
  pub edge_node_id : String
  pub decoy_version : String
  pub collector_version : String
  pub site : String
  pub environment : String
  pub coverage_role : String
  pub src_ip : String
  pub source_country : Option String
  pub method : String
  pub path : String
  pub request_fingerprint : String
  pub event_class : String
  pub status_code : ℕ
  pub user_agent : String
  pub username : String
  pub password : String
  pub suspicious : Bool
  pub latency_ms : ℕ
  pub tags : List String
  pub normalized_tags : List String
  pub headers_subset : Dict
  pub raw_json : IngestEventIn
  pub alert_processed : Bool
  -- Whether `occurred_at` has a zone, as the session holds it.
  pub zoned : Bool

pub record CredentialAttempt : Type 0 where
  pub id : ℕ
  pub event_pk : ℕ
  pub decoy_id : String
  pub src_ip : String
  pub username : String
  pub password : String
  pub attempted_at : ℕ

pub record Investigation : Type 0 where
  pub id : ℕ
  pub fingerprint : String
  pub first_seen : ℕ
  pub last_seen : ℕ
  pub detection_count : ℕ
  pub decoy_spread : ℕ
  pub activity_class : String
  pub analyst_notes : Option String
  pub status : String
  -- Whether `last_seen` has a zone, as the session holds it.
  pub zoned : Bool

pub data Level : Type 0 where
  medium high critical : Level

pub data DetectionType : Type 0 where
  internet_recon credential_bruteforce credential_stuffing path_traversal_probe xss_probe
        sqli_probe :
      DetectionType
  sensitive_path_discovery admin_panel_enumeration distributed_scanner_activity : DetectionType

pub record Detection : Type 0 where
  pub id : ℕ
  pub fingerprint : String
  pub detection_type : DetectionType
  pub severity : Level
  pub confidence : Level
  pub status : String
  pub title : String
  pub summary : String
  pub recommended_action : String
  pub recommended_block_targets : List String
  pub assigned_to : Option String
  pub triage_notes : Option String
  pub evidence_summary : Dict
  pub decoy_pk : ℕ
  pub decoy_id : String
  pub site : String
  pub src_ip : String
  pub event_pk : ℕ
  pub investigation_id : Option ℕ
  pub occurrences : ℕ
  pub first_seen_at : ℕ
  pub last_seen_at : ℕ

pub record User : Type 0 where
  pub id : ℕ
  pub subject : String
  pub email : Option String
  pub display_name : Option String
  pub last_login_at : ℕ

pub record Artifact : Type 0 where
  pub id : ℕ
  pub artifact_type : String
  pub export_format : String
  pub generated_by : String
  pub generated_at : ℕ
  pub bucket : String
  pub object_key : String
  pub linked_investigation : Option ℕ

-- The tables, in the order of insertion. `new_deployments` are the session's deployments that are
-- added and not flushed: queries do not see them. `next_id` is a number that no row has.
pub record Db : Type 0 where
  pub next_id : ℕ
  pub decoys : List Decoy
  pub deployments : List Deployment
  pub new_deployments : List Deployment
  pub events : List Event
  pub credentials : List CredentialAttempt
  pub investigations : List Investigation
  pub detections : List Detection
  pub users : List User
  pub artifacts : List Artifact

abbrev pub empty_db : Db
empty_db = record {
  next_id = 0;
  decoys = [];
  deployments = [];
  new_deployments = [];
  events = [];
  credentials = [];
  investigations = [];
  detections = [];
  users = [];
  artifacts = [];
}
