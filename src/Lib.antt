-- ===== src/Lib.antt =====
-- The data path of the honeynet: from a decoy's report through the edge relay into the database of
-- the ingest API, and from the stored events to detections, investigations and the posture that
-- analysts see.
--
-- Parts, and where they are modelled:
-- - edge_relay/app.py: Relay, with its children. `_stats`, the spool files and
--   `_last_upstream_error` are the records Channel and Relay; forward_payload, queue_payload,
--   drain_spool_once, _handle_ingest (handle_ingest) and health have the names of the source.
--   What `urlopen` does with a request is an argument (Response), and JSON is the parameter Json
--   with the laws IsCodec; Relay/Codec is one that meets them. Relay/Spool is the text of a spool
--   file, Relay/Race the interleaving of requests with the replay thread, cut at its locked blocks.
-- - ingest_api/schemas.py and config.py: Schemas; ingest_api/models.py: Models. A timestamp is a
--   number of microseconds, a primary key a number that is not used yet, a table a list of rows.
-- - ingest_api/database.py: Session, the operations of an SQLAlchemy session that the services use
--   (autoflush is off): queries, one_or_none and one with their exceptions, flush, and unique
--   columns. Session/Total is total correctness: Runs m db P says that `m` returns, with P. Jobs is
--   work on a session and an object store; session_scope is in Worker.
-- - ingest_api/object_store.py: ObjectStore. The client of boto3 is the record Client of operations
--   over an unknown state with the laws IsLawful; ObjectStore/Memory is one that meets them.
-- - ingest_api/services.py: Tags (normalize_tags, classify_event, generate_request_fingerprint),
--   Payload (normalize_payload), Fleet (reconcile_expected_fleet in Fleet/Inventory,
--   refresh_fleet_health in Fleet/Refresh, upsert_decoy in Fleet/Report, upsert_heartbeat in
--   Fleet/Heartbeat), Ingest (insert_event), Detections (the rules and the tests of
--   materialize_detections in Detections/Rules, _record_detection, _ensure_investigation and
--   _update_investigation_stats in Detections/Record, the loop in Detections/Materialize) and
--   Posture (query_posture, query_fleet, query_overview, list_block_targets; the rankings are in
--   Ranking), and Exports (create_artifact_record and the builders of documents; Exports/Evidence is
--   build_evidence_export). schemas.py's render_csv is Csv; Csv/Reader is a reader of CSV files.
-- - ingest_api/worker.py: Worker.
-- - ingest_api/main.py and security.py: Api (_handle_ingest with its commits and rollback, the
--   routes of sensors, require_ingest_key), Analysts (require_analyst_identity, the PATCH of a
--   detection), Listings (list_events, list_detections, list_alerts_compat, list_credentials,
--   fleet_coverage), Routes (the other reads) and Exports/Routes (exports and downloads).
-- - container-baseline/app.py: Baseline (configuration, tags and reports), with Baseline/Pages (pages
--   and handlers) and Baseline/Received (a report as a payload of the ingest API).
-- - dashboard/report.py: Dashboard; dashboard/dashboard.py's build_summary: Dashboard/Live.
-- - ingest_api/alembic/versions: Migrations (columns, operations and what Alembic does with them, a
--   parameter), with a child for each migration and Migrations/Undone (upgrade and downgrade).
-- - Samples, Tests with its children, and Relay/Tests: inputs to run the definitions with, tests and
--   witnesses.
--
-- The parts meet in the database (Db) and in Normalized, the payload with its defaults. The time,
-- uuid4, SHA-1 and the database's orders of rows are the record Engine, an argument of the
-- services without a law; how it orders texts is an argument of query_fleet. Exceptions are values
-- of Session.Error: those of queries and unique columns, the DataError of a value that its column
-- does not take (Columns has the widths of models.py), the OverflowError of a window that begins
-- before year 1, and the TypeError of comparing a time that has a zone with one that has none.
-- Which times have none is a flag of the rows in the session, which a closed session clears;
-- objects are taken to stay in the session until then. Detections/Workable says which events raise
-- none of these.
--
-- Bounds and fuel: every loop of the source runs over a list, and is structural recursion here; no
-- definition takes fuel but the digits of a number, as many as the number itself. Texts are lists
-- of code points; upper and lower case are those of ASCII letters, and strip removes ASCII spaces.
-- Numbers that the source stores are natural numbers, and times are microseconds from the start of
-- year 1.
--
-- Not modelled: widths of the columns that only settings, analysts and exports fill, the columns
-- that only hooks of the ORM write, query_overview's events_by_decoy and the dashboard's by_decoy
-- (their order within one decoy id is the database's), the commits of routes that only read,
-- metrics, ingest_api/reporting.py (no route uses it), the HTML of the legacy report and of the
-- dashboard, parse_timestamp, the parsing of expected_fleet_json, the running of Alembic, the
-- sleep of the replay thread, times that are before year 1 or after 9999 in UTC, the C decoy, the
-- web application and deployment. The bytes of a document are its text, since UTF-8 is. The
-- services run in one transaction after the other: concurrent transactions of several API
-- processes are left out.
pub mod Base
pub mod Relay
pub mod Schemas
pub mod Tags
pub mod Migrations
pub mod Models
pub mod Session
pub mod Payload
pub mod Columns
pub mod Fleet
pub mod Ingest
pub mod Detections
pub mod Api
pub mod Samples
pub mod Tests
pub mod Analysts
pub mod Posture
pub mod Listings
pub mod ObjectStore
pub mod Jobs
pub mod Exports
pub mod Csv
pub mod Worker
pub mod Baseline
pub mod Ranking
pub mod Routes
pub mod Dashboard
