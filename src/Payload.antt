-- ===== src/Payload.antt =====
-- ingest_api/services.py, normalize_payload: an event with every default filled in.
use unikernal_honeynet.Base.{
  ℕ, String, Bool, true, List, [], Option, none, some, strip, or_text, get_or,
}
use unikernal_honeynet.Schemas.{IngestEventIn, Settings, Dict}
use unikernal_honeynet.Session.{Engine}
use unikernal_honeynet.Tags.{normalize_tags, classify_event, generate_request_fingerprint}

pub record Normalized : Type 0 where
  pub event_id : String
  pub occurred_at : ℕ
  pub zoned : Bool
  pub decoy_id : String
  pub profile : String
  pub src_ip : String
  pub method : String
  pub path : String
  pub user_agent : String
  pub username : String
  pub password : String
  pub suspicious : Bool
  pub tags : List String
  pub normalized_tags : List String
  pub collector_version : String
  pub edge_node_id : String
  pub decoy_version : String
  pub status_code : ℕ
  pub latency_ms : ℕ
  pub headers_subset : Dict
  pub public_endpoint : Option String
  pub request_fingerprint : String
  pub source_country : Option String
  pub event_class : String
  pub site : String
  pub environment : String
  pub coverage_role : String
  pub raw_json : IngestEventIn

-- `value or default`, where a missing value and the empty text are false.
abbrev pub or_default : Option String → String → String
or_default none d = d
or_default (some s) d = or_text s d

-- The n-th random identifier stands for the `uuid4` of the call.
unfoldable pub normalize_payload : Settings → Engine → ℕ → IngestEventIn → Normalized
normalize_payload settings engine n payload =
    let tags = normalize_tags payload in
    let occurred = get_or payload.ts (record { instant = engine.now; zoned = true }) in
    record {
      event_id = or_default payload.event_id (engine.uuid4 n);
      occurred_at = occurred.instant;
      zoned = occurred.zoned;
      decoy_id = strip payload.decoy_id;
      profile = strip payload.profile;
      src_ip = strip (or_default payload.src_ip "unknown");
      method = payload.method;
      path = or_text (strip payload.path) "/";
      user_agent = strip payload.user_agent;
      username = strip payload.username;
      password = strip payload.password;
      suspicious = payload.suspicious;
      tags = payload.tags;
      normalized_tags = tags;
      collector_version = or_default payload.collector_version settings.collector_version;
      edge_node_id = or_default payload.edge_node_id "unknown-edge";
      decoy_version = or_default payload.decoy_version "unknown";
      status_code = get_or payload.status_code 0;
      latency_ms = get_or payload.latency_ms 0;
      headers_subset = get_or payload.headers_subset [];
      public_endpoint = payload.public_endpoint;
      request_fingerprint = or_default payload.request_fingerprint (
          generate_request_fingerprint engine.sha1_hex payload.method payload.path
            payload.user_agent tags);
      source_country = payload.source_country;
      event_class = or_default payload.event_class (classify_event payload tags);
      site = or_default payload.site "unknown";
      environment = or_default payload.environment "unknown";
      coverage_role = or_default payload.coverage_role "internet_edge";
      raw_json = payload;
    }
