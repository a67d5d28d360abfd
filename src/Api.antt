-- ===== src/Api.antt =====
-- ingest_api/main.py and ingest_api/security.py: the requests that sensors send.
pub mod Stored
pub mod Keys
use unikernal_honeynet.Base.{
  ℕ, String, Bool, true, false, ◌&&◌, not, Option, none, some, str_eq, if◌then◌else◌, truthy,
}
use unikernal_honeynet.Schemas.{IngestEventIn, HeartbeatIn, Settings}
use unikernal_honeynet.Models.{Db, Decoy, Event}
use unikernal_honeynet.Session.{Error, Result, ok, err, update_where, Engine}
use unikernal_honeynet.Ingest.{insert_event}
use unikernal_honeynet.Fleet.Heartbeat.{upsert_heartbeat}
use unikernal_honeynet.Detections.Materialize.{materialize_detections}

-- 200 with the id of the event or decoy, 400 with the error, or 401.
pub data Reply : Type 0 where
  stored : String → Reply
  bad_request : Error → Reply
  unauthorized : Reply

-- `x_ingest_key != settings.ingest_api_key`: a missing key is no text.
abbrev pub same_key : Option String → String → Bool
same_key none key = false
same_key (some given) key = str_eq given key

abbrev pub has_text : Option String → Bool
has_text none = false
has_text (some given) = truthy given

-- `require_ingest_key` returns without an exception.
unfoldable pub require_ingest_key : Settings → Option String → Bool
require_ingest_key settings x_ingest_key =
    if settings.allow_legacy_unauthenticated_ingest && not (has_text x_ingest_key)
    then true
    else same_key x_ingest_key settings.ingest_api_key

-- The session is closed: times are read from the database again, with a zone.
unfoldable pub close_session : Db → Db
close_session db = record db {
  events = update_where (λ _. true) (λ row. record row { zoned = true }) db.events;
  investigations = update_where (λ _. true) (λ row. record row { zoned = true }) db.investigations;
}

-- After the event is committed: a failure rolls back to that commit.
unfoldable pub process_inline : Event → Db → Result (ℕ × Db) → Reply × Db
process_inline event committed (ok (n, after)) = (stored event.event_id, close_session after)
process_inline event committed (err e) = (bad_request e, close_session committed)

unfoldable pub inserted : Settings → Engine → Db → Result (Event × Db) → Reply × Db
unfolding process_inline close_session
inserted settings engine before (err e) = (bad_request e, before)
inserted settings engine before (ok (event, committed)) =
    if settings.inline_alert_processing
    then process_inline event committed (materialize_detections settings engine 200 committed)
    else (stored event.event_id, close_session committed)

-- `_handle_ingest`, from the committed database to the committed database.
unfoldable pub handle_ingest : Settings → Engine → IngestEventIn → Db → Reply × Db
unfolding inserted
handle_ingest settings engine payload db =
    inserted settings engine db (insert_event settings engine payload db)

-- POST /api/v1/events
unfoldable pub ingest_event : Settings → Engine → Option String → IngestEventIn → Db → Reply × Db
ingest_event settings engine x_ingest_key payload db =
    if require_ingest_key settings x_ingest_key
    then handle_ingest settings engine payload db
    else (unauthorized, db)

-- POST /event
unfoldable pub legacy_ingest_event :
    Settings → Engine → Option String → IngestEventIn → Db → Reply × Db
legacy_ingest_event settings engine x_ingest_key payload db =
    handle_ingest settings engine payload db

unfoldable pub reported : Db → Result (Decoy × Db) → Reply × Db
reported before (ok (decoy, after)) = (stored decoy.decoy_id, after)
reported before (err e) = (bad_request e, before)

-- POST /api/v1/heartbeats and POST /heartbeat
unfoldable pub ingest_heartbeat : Settings → Engine → Option String → HeartbeatIn → Db → Reply × Db
unfolding reported
ingest_heartbeat settings engine x_ingest_key payload db =
    if require_ingest_key settings x_ingest_key
    then reported db (upsert_heartbeat settings engine payload db)
    else (unauthorized, db)
