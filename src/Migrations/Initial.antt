-- ===== src/Migrations/Initial.antt =====
-- ingest_api/alembic/versions/0001_initial.py: what the migration creates, and what it drops when undone.
use unikernal_honeynet.Base.{List, [], ◌∷◌, true, false}
use unikernal_honeynet.Migrations.{
  Column, id_column, required, optional, refers, varchar, text, integer, boolean, timestamp, json,
  Change, create_table, create_index, create_unique_index, Drop, drop_table, drop_index,
}

unfoldable pub decoys_columns : List Column
decoys_columns =
    id_column
    ∷ required "decoy_id" (varchar 128)
    ∷ required "profile" (varchar 64)
    ∷ required "edge_node_id" (varchar 128)
    ∷ required "decoy_version" (varchar 64)
    ∷ required "collector_version" (varchar 64)
    ∷ optional "public_endpoint" (varchar 255)
    ∷ required "status" (varchar 32)
    ∷ required "last_seen_at" timestamp
    ∷ required "created_at" timestamp
    ∷ required "updated_at" timestamp
    ∷ []

unfoldable pub users_columns : List Column
users_columns =
    id_column
    ∷ required "subject" (varchar 255)
    ∷ optional "email" (varchar 255)
    ∷ optional "display_name" (varchar 255)
    ∷ required "created_at" timestamp
    ∷ required "last_login_at" timestamp
    ∷ []

unfoldable pub deployments_columns : List Column
deployments_columns =
    id_column
    ∷ refers "decoy_id" "decoys.id" true
    ∷ required "edge_node_id" (varchar 128)
    ∷ required "profile" (varchar 64)
    ∷ required "runtime" (varchar 64)
    ∷ required "build_version" (varchar 64)
    ∷ optional "public_endpoint" (varchar 255)
    ∷ required "status" (varchar 32)
    ∷ required "metadata_json" json
    ∷ required "launched_at" timestamp
    ∷ required "updated_at" timestamp
    ∷ []

unfoldable pub events_columns : List Column
events_columns =
    id_column
    ∷ required "event_id" (varchar 128)
    ∷ required "occurred_at" timestamp
    ∷ required "received_at" timestamp
    ∷ refers "decoy_pk" "decoys.id" true
    ∷ required "decoy_id" (varchar 128)
    ∷ required "profile" (varchar 64)
    ∷ required "edge_node_id" (varchar 128)
    ∷ required "decoy_version" (varchar 64)
    ∷ required "collector_version" (varchar 64)
    ∷ required "src_ip" (varchar 128)
    ∷ required "method" (varchar 16)
    ∷ required "path" (varchar 255)
    ∷ required "status_code" integer
    ∷ required "user_agent" text
    ∷ required "username" (varchar 255)
    ∷ required "password" (varchar 255)
    ∷ required "suspicious" boolean
    ∷ required "latency_ms" integer
    ∷ required "tags" json
    ∷ required "headers_subset" json
    ∷ required "raw_json" json
    ∷ required "alert_processed" boolean
    ∷ []

unfoldable pub credentials_columns : List Column
credentials_columns =
    id_column
    ∷ refers "event_pk" "events.id" false
    ∷ required "decoy_id" (varchar 128)
    ∷ required "src_ip" (varchar 128)
    ∷ required "username" (varchar 255)
    ∷ required "password" (varchar 255)
    ∷ required "attempted_at" timestamp
    ∷ []

unfoldable pub alerts_columns : List Column
alerts_columns =
    id_column
    ∷ required "fingerprint" (varchar 255)
    ∷ required "type" (varchar 64)
    ∷ required "severity" (varchar 32)
    ∷ required "status" (varchar 32)
    ∷ required "title" (varchar 255)
    ∷ required "summary" text
    ∷ optional "decoy_id" (varchar 128)
    ∷ optional "src_ip" (varchar 128)
    ∷ refers "event_pk" "events.id" true
    ∷ required "occurrences" integer
    ∷ required "metadata_json" json
    ∷ required "first_seen_at" timestamp
    ∷ required "last_seen_at" timestamp
    ∷ required "created_at" timestamp
    ∷ required "updated_at" timestamp
    ∷ []

unfoldable pub sessions_columns : List Column
sessions_columns =
    id_column
    ∷ refers "user_pk" "users.id" false
    ∷ required "provider" (varchar 64)
    ∷ required "created_at" timestamp
    ∷ optional "expires_at" timestamp
    ∷ required "metadata_json" json
    ∷ []

-- `upgrade`
unfoldable pub initial_changes : List Change
initial_changes =
    create_table "decoys" decoys_columns []
    ∷ create_unique_index "ix_decoys_decoy_id" "decoys" "decoy_id"
    ∷ create_index "ix_decoys_profile" "decoys" "profile"
    ∷ create_index "ix_decoys_edge_node_id" "decoys" "edge_node_id"
    ∷ create_index "ix_decoys_last_seen_at" "decoys" "last_seen_at"
    ∷ create_table "users" users_columns []
    ∷ create_unique_index "ix_users_subject" "users" "subject"
    ∷ create_index "ix_users_email" "users" "email"
    ∷ create_table "deployments" deployments_columns []
    ∷ create_index "ix_deployments_decoy_id" "deployments" "decoy_id"
    ∷ create_index "ix_deployments_edge_node_id" "deployments" "edge_node_id"
    ∷ create_table "events" events_columns []
    ∷ create_unique_index "ix_events_event_id" "events" "event_id"
    ∷ create_index "ix_events_occurred_at" "events" "occurred_at"
    ∷ create_index "ix_events_received_at" "events" "received_at"
    ∷ create_index "ix_events_decoy_pk" "events" "decoy_pk"
    ∷ create_index "ix_events_decoy_id" "events" "decoy_id"
    ∷ create_index "ix_events_profile" "events" "profile"
    ∷ create_index "ix_events_edge_node_id" "events" "edge_node_id"
    ∷ create_index "ix_events_src_ip" "events" "src_ip"
    ∷ create_index "ix_events_path" "events" "path"
    ∷ create_index "ix_events_suspicious" "events" "suspicious"
    ∷ create_index "ix_events_alert_processed" "events" "alert_processed"
    ∷ create_table "credentials" credentials_columns []
    ∷ create_unique_index "ix_credentials_event_pk" "credentials" "event_pk"
    ∷ create_index "ix_credentials_decoy_id" "credentials" "decoy_id"
    ∷ create_index "ix_credentials_src_ip" "credentials" "src_ip"
    ∷ create_index "ix_credentials_attempted_at" "credentials" "attempted_at"
    ∷ create_table "alerts" alerts_columns (("fingerprint", "uq_alert_fingerprint") ∷ [])
    ∷ create_index "ix_alerts_fingerprint" "alerts" "fingerprint"
    ∷ create_index "ix_alerts_type" "alerts" "type"
    ∷ create_index "ix_alerts_decoy_id" "alerts" "decoy_id"
    ∷ create_index "ix_alerts_src_ip" "alerts" "src_ip"
    ∷ create_table "sessions" sessions_columns []
    ∷ create_index "ix_sessions_user_pk" "sessions" "user_pk"
    ∷ []

-- `downgrade`
unfoldable pub initial_drops : List Drop
initial_drops =
    drop_index "ix_sessions_user_pk" "sessions"
    ∷ drop_table "sessions"
    ∷ drop_index "ix_alerts_src_ip" "alerts"
    ∷ drop_index "ix_alerts_decoy_id" "alerts"
    ∷ drop_index "ix_alerts_type" "alerts"
    ∷ drop_index "ix_alerts_fingerprint" "alerts"
    ∷ drop_table "alerts"
    ∷ drop_index "ix_credentials_attempted_at" "credentials"
    ∷ drop_index "ix_credentials_src_ip" "credentials"
    ∷ drop_index "ix_credentials_decoy_id" "credentials"
    ∷ drop_index "ix_credentials_event_pk" "credentials"
    ∷ drop_table "credentials"
    ∷ drop_index "ix_events_alert_processed" "events"
    ∷ drop_index "ix_events_suspicious" "events"
    ∷ drop_index "ix_events_path" "events"
    ∷ drop_index "ix_events_src_ip" "events"
    ∷ drop_index "ix_events_edge_node_id" "events"
    ∷ drop_index "ix_events_profile" "events"
    ∷ drop_index "ix_events_decoy_id" "events"
    ∷ drop_index "ix_events_decoy_pk" "events"
    ∷ drop_index "ix_events_received_at" "events"
    ∷ drop_index "ix_events_occurred_at" "events"
    ∷ drop_index "ix_events_event_id" "events"
    ∷ drop_table "events"
    ∷ drop_index "ix_deployments_edge_node_id" "deployments"
    ∷ drop_index "ix_deployments_decoy_id" "deployments"
    ∷ drop_table "deployments"
    ∷ drop_index "ix_users_email" "users"
    ∷ drop_index "ix_users_subject" "users"
    ∷ drop_table "users"
    ∷ drop_index "ix_decoys_last_seen_at" "decoys"
    ∷ drop_index "ix_decoys_edge_node_id" "decoys"
    ∷ drop_index "ix_decoys_profile" "decoys"
    ∷ drop_index "ix_decoys_decoy_id" "decoys"
    ∷ drop_table "decoys"
    ∷ []
