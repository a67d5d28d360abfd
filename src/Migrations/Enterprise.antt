-- ===== src/Migrations/Enterprise.antt =====
-- ingest_api/alembic/versions/0002_enterprise_v2.py: what the migration creates, and what it drops when undone.
use unikernal_honeynet.Base.{List, [], ◌∷◌, true}
use unikernal_honeynet.Migrations.{
  Column, id_column, required, optional, refers, filled, varchar, text, integer, timestamp, json,
  Change, create_table, add_column, create_index, Drop, drop_table, drop_column, drop_index,
}

unfoldable pub investigations_columns : List Column
investigations_columns =
    id_column
    ∷ required "fingerprint" (varchar 255)
    ∷ required "first_seen" timestamp
    ∷ required "last_seen" timestamp
    ∷ required "detection_count" integer
    ∷ required "decoy_spread" integer
    ∷ required "activity_class" (varchar 32)
    ∷ optional "analyst_notes" text
    ∷ required "status" (varchar 32)
    ∷ required "created_at" timestamp
    ∷ required "updated_at" timestamp
    ∷ []

unfoldable pub detections_columns : List Column
detections_columns =
    id_column
    ∷ required "fingerprint" (varchar 255)
    ∷ required "detection_type" (varchar 64)
    ∷ required "severity" (varchar 32)
    ∷ required "confidence" (varchar 32)
    ∷ required "status" (varchar 32)
    ∷ required "title" (varchar 255)
    ∷ required "summary" text
    ∷ required "recommended_action" text
    ∷ required "recommended_block_targets" json
    ∷ optional "assigned_to" (varchar 255)
    ∷ optional "triage_notes" text
    ∷ required "evidence_summary" json
    ∷ refers "decoy_pk" "decoys.id" true
    ∷ optional "decoy_id" (varchar 128)
    ∷ optional "site" (varchar 128)
    ∷ optional "src_ip" (varchar 128)
    ∷ refers "event_pk" "events.id" true
    ∷ refers "investigation_id" "investigations.id" true
    ∷ required "occurrences" integer
    ∷ required "first_seen_at" timestamp
    ∷ required "last_seen_at" timestamp
    ∷ required "created_at" timestamp
    ∷ required "updated_at" timestamp
    ∷ []

unfoldable pub artifacts_columns : List Column
artifacts_columns =
    id_column
    ∷ required "artifact_type" (varchar 64)
    ∷ required "export_format" (varchar 32)
    ∷ required "generated_by" (varchar 255)
    ∷ required "generated_at" timestamp
    ∷ required "bucket" (varchar 255)
    ∷ required "object_key" (varchar 512)
    ∷ refers "linked_investigation" "investigations.id" true
    ∷ []

-- `upgrade`
unfoldable pub enterprise_v2_changes : List Change
enterprise_v2_changes =
    add_column "decoys" (filled "health_status" (varchar 32) "healthy")
    ∷ add_column "decoys" (filled "coverage_role" (varchar 32) "internet_edge")
    ∷ add_column "decoys" (filled "environment" (varchar 64) "unknown")
    ∷ add_column "decoys" (filled "site" (varchar 128) "unknown")
    ∷ add_column "decoys" (optional "last_heartbeat_at" timestamp)
    ∷ create_index "ix_decoys_health_status" "decoys" "health_status"
    ∷ create_index "ix_decoys_coverage_role" "decoys" "coverage_role"
    ∷ create_index "ix_decoys_environment" "decoys" "environment"
    ∷ create_index "ix_decoys_site" "decoys" "site"
    ∷ create_index "ix_decoys_last_heartbeat_at" "decoys" "last_heartbeat_at"
    ∷ add_column "deployments" (filled "desired_state" (varchar 32) "running")
    ∷ add_column "deployments" (filled "observed_state" (varchar 32) "unknown")
    ∷ add_column "deployments" (optional "host_port" integer)
    ∷ add_column "deployments" (filled "runtime_state" (varchar 64) "unknown")
    ∷ add_column "deployments" (optional "failure_reason" text)
    ∷ add_column "deployments" (filled "site" (varchar 128) "unknown")
    ∷ add_column "deployments" (filled "environment" (varchar 64) "unknown")
    ∷ add_column "deployments" (filled "coverage_role" (varchar 32) "internet_edge")
    ∷ create_index "ix_deployments_site" "deployments" "site"
    ∷ create_index "ix_deployments_environment" "deployments" "environment"
    ∷ create_index "ix_deployments_coverage_role" "deployments" "coverage_role"
    ∷ add_column "events" (filled "site" (varchar 128) "unknown")
    ∷ add_column "events" (filled "environment" (varchar 64) "unknown")
    ∷ add_column "events" (filled "coverage_role" (varchar 32) "internet_edge")
    ∷ add_column "events" (optional "source_country" (varchar 64))
    ∷ add_column "events" (filled "request_fingerprint" (varchar 128) "unknown")
    ∷ add_column "events" (filled "event_class" (varchar 32) "probe")
    ∷ add_column "events" (filled "normalized_tags" json "[]")
    ∷ create_index "ix_events_site" "events" "site"
    ∷ create_index "ix_events_environment" "events" "environment"
    ∷ create_index "ix_events_coverage_role" "events" "coverage_role"
    ∷ create_index "ix_events_request_fingerprint" "events" "request_fingerprint"
    ∷ create_index "ix_events_event_class" "events" "event_class"
    ∷ create_table "investigations" investigations_columns
        (("fingerprint", "uq_investigation_fingerprint") ∷ [])
    ∷ create_index "ix_investigations_fingerprint" "investigations" "fingerprint"
    ∷ create_index "ix_investigations_last_seen" "investigations" "last_seen"
    ∷ create_table "detections" detections_columns
        (("fingerprint", "uq_detection_fingerprint") ∷ [])
    ∷ create_index "ix_detections_fingerprint" "detections" "fingerprint"
    ∷ create_index "ix_detections_type" "detections" "detection_type"
    ∷ create_index "ix_detections_status" "detections" "status"
    ∷ create_index "ix_detections_decoy_id" "detections" "decoy_id"
    ∷ create_index "ix_detections_site" "detections" "site"
    ∷ create_index "ix_detections_src_ip" "detections" "src_ip"
    ∷ create_index "ix_detections_last_seen_at" "detections" "last_seen_at"
    ∷ create_index "ix_detections_investigation_id" "detections" "investigation_id"
    ∷ create_table "artifacts" artifacts_columns []
    ∷ create_index "ix_artifacts_artifact_type" "artifacts" "artifact_type"
    ∷ create_index "ix_artifacts_generated_at" "artifacts" "generated_at"
    ∷ create_index "ix_artifacts_linked_investigation" "artifacts" "linked_investigation"
    ∷ []

-- `downgrade`
unfoldable pub enterprise_v2_drops : List Drop
enterprise_v2_drops =
    drop_index "ix_artifacts_linked_investigation" "artifacts"
    ∷ drop_index "ix_artifacts_generated_at" "artifacts"
    ∷ drop_index "ix_artifacts_artifact_type" "artifacts"
    ∷ drop_table "artifacts"
    ∷ drop_index "ix_detections_investigation_id" "detections"
    ∷ drop_index "ix_detections_last_seen_at" "detections"
    ∷ drop_index "ix_detections_src_ip" "detections"
    ∷ drop_index "ix_detections_site" "detections"
    ∷ drop_index "ix_detections_decoy_id" "detections"
    ∷ drop_index "ix_detections_status" "detections"
    ∷ drop_index "ix_detections_type" "detections"
    ∷ drop_index "ix_detections_fingerprint" "detections"
    ∷ drop_table "detections"
    ∷ drop_index "ix_investigations_last_seen" "investigations"
    ∷ drop_index "ix_investigations_fingerprint" "investigations"
    ∷ drop_table "investigations"
    ∷ drop_index "ix_events_event_class" "events"
    ∷ drop_index "ix_events_request_fingerprint" "events"
    ∷ drop_index "ix_events_coverage_role" "events"
    ∷ drop_index "ix_events_environment" "events"
    ∷ drop_index "ix_events_site" "events"
    ∷ drop_column "events" "normalized_tags"
    ∷ drop_column "events" "event_class"
    ∷ drop_column "events" "request_fingerprint"
    ∷ drop_column "events" "source_country"
    ∷ drop_column "events" "coverage_role"
    ∷ drop_column "events" "environment"
    ∷ drop_column "events" "site"
    ∷ drop_index "ix_deployments_coverage_role" "deployments"
    ∷ drop_index "ix_deployments_environment" "deployments"
    ∷ drop_index "ix_deployments_site" "deployments"
    ∷ drop_column "deployments" "coverage_role"
    ∷ drop_column "deployments" "environment"
    ∷ drop_column "deployments" "site"
    ∷ drop_column "deployments" "failure_reason"
    ∷ drop_column "deployments" "runtime_state"
    ∷ drop_column "deployments" "host_port"
    ∷ drop_column "deployments" "observed_state"
    ∷ drop_column "deployments" "desired_state"
    ∷ drop_index "ix_decoys_last_heartbeat_at" "decoys"
    ∷ drop_index "ix_decoys_site" "decoys"
    ∷ drop_index "ix_decoys_environment" "decoys"
    ∷ drop_index "ix_decoys_coverage_role" "decoys"
    ∷ drop_index "ix_decoys_health_status" "decoys"
    ∷ drop_column "decoys" "last_heartbeat_at"
    ∷ drop_column "decoys" "site"
    ∷ drop_column "decoys" "environment"
    ∷ drop_column "decoys" "coverage_role"
    ∷ drop_column "decoys" "health_status"
    ∷ []
