-- ===== src/Ingest.antt =====
-- ingest_api/services.py, insert_event: an event enters the database once.
pub mod Once
use unikernal_honeynet.Base.{
  ℕ, String, Bool, true, false, ◌||◌, List, [], ◌∷◌, ◌++◌, Option, none, some, truthy,
  if◌then◌else◌,
}
use unikernal_honeynet.Schemas.{IngestEventIn, Settings}
use unikernal_honeynet.Models.{Db, Decoy, Event, CredentialAttempt}
use unikernal_honeynet.Session.{
  Exec, data_error, require, pure, ◌>>=◌, ◌>>◌, gets, modify, one_or_none, insert_unique, fresh_id,
  Engine,
}
use unikernal_honeynet.Session.Keys.{with_key}
use unikernal_honeynet.Payload.{Normalized, normalize_payload}
use unikernal_honeynet.Columns.{columns_fit}
use unikernal_honeynet.Fleet.Inventory.{reconcile_expected_fleet}
use unikernal_honeynet.Fleet.Report.{upsert_decoy}

abbrev pub event_key : Event → String
event_key event = event.event_id

unfoldable pub find_event : String → Exec (Option Event)
find_event event_id = do rows ← gets (λ db. with_key event_key event_id db.events); one_or_none rows

unfoldable pub add_event : Event → Exec (Unit {0})
add_event event db =
    insert_unique event_key event db.events (λ rows d. record d { events = rows }) db

unfoldable pub new_event : ℕ → Decoy → Normalized → Event
new_event id decoy n = record {
  id = id;
  event_id = n.event_id;
  occurred_at = n.occurred_at;
  decoy_pk = decoy.id;
  decoy_id = n.decoy_id;
  profile = n.profile;
  edge_node_id = n.edge_node_id;
  decoy_version = n.decoy_version;
  collector_version = n.collector_version;
  site = n.site;
  environment = n.environment;
  coverage_role = n.coverage_role;
  src_ip = n.src_ip;
  source_country = n.source_country;
  method = n.method;
  path = n.path;
  request_fingerprint = n.request_fingerprint;
  event_class = n.event_class;
  status_code = n.status_code;
  user_agent = n.user_agent;
  username = n.username;
  password = n.password;
  suspicious = n.suspicious;
  latency_ms = n.latency_ms;
  tags = n.tags;
  normalized_tags = n.normalized_tags;
  headers_subset = n.headers_subset;
  raw_json = n.raw_json;
  alert_processed = false;
  zoned = n.zoned;
}

unfoldable pub new_credential : ℕ → ℕ → Normalized → CredentialAttempt
new_credential id event_pk n = record {
  id = id;
  event_pk = event_pk;
  decoy_id = n.decoy_id;
  src_ip = n.src_ip;
  username = n.username;
  password = n.password;
  attempted_at = n.occurred_at;
}

-- A request with a user name or a password is a credential attempt.
unfoldable pub add_credential : ℕ → Normalized → Exec (Unit {0})
unfolding new_credential
add_credential event_pk n =
    if truthy n.username || truthy n.password
    then (do
      id ← fresh_id
      modify
          (λ db. record db { credentials = db.credentials ++ new_credential id event_pk n ∷ [] }))
    else pure tt

-- Both flushes of a new event, of its decoy's rows and of its own, refuse a value that is too long for
-- its column; what the rest of the rows has was in the database before.
unfoldable pub insert_found : Engine → Normalized → Option Event → Exec Event
insert_found engine n (some existing) = pure existing
insert_found engine n none = do
  (decoy, n') ← upsert_decoy engine n
  require (columns_fit n) data_error
  id ← fresh_id
  let event = new_event id decoy n'
  add_event event
  add_credential event.id n'
  pure event

unfoldable pub insert_event : Settings → Engine → IngestEventIn → Exec Event
insert_event settings engine payload = do
  reconcile_expected_fleet settings engine
  n ← gets (λ db. normalize_payload settings engine db.next_id payload)
  existing ← find_event n.event_id
  insert_found engine n existing
