-- ===== src/Tests.antt =====
-- Runs of the ingest API's services (ingest_api/services.py, main.py, security.py), and their theorems
-- at concrete inputs.
mod Views
mod Exported
mod Fitting
mod Migrated
mod Sent
use unikernal_honeynet.Base.{
  ◌≤◌, String, true, false, [], ◌∷◌, none, some, ◌≡◌, ◌≢◌, ◌↔◌, ◌⊎◌, refl, arith, All, elem, upper,
  IsSorted, truthy, get_or, leb, ◌&&◌, ◌||◌, count_if, if◌then◌else◌, eq_iff,
}
use unikernal_honeynet.Models.{Event, credential_bruteforce, credential_stuffing}
use unikernal_honeynet.Session.Total.{Runs}
use unikernal_honeynet.Session.Keys.{has_key}
use unikernal_honeynet.Payload.{normalize_payload}
use unikernal_honeynet.Samples.{
  sample_settings, sample_engine, login_attempt, login_row, pending_logins, sample_db, bruteforce,
  sample_heartbeat, sample_decoy,
}
use unikernal_honeynet.Tags.{earned_tags, cleaned, given_tags, normalize_tags, classify_event}
use unikernal_honeynet.Tags.Normalized.{
  normalize_tags-IsSorted, elem-normalize_tags, normalize_tags-nil,
}
use unikernal_honeynet.Tags.Class.{
  credential_tag, probe_tag, recon_tag, earned_login, classify_event_iff, login_is_credential,
}
use unikernal_honeynet.Fleet.Step.{FleetStep}
use unikernal_honeynet.Fleet.Inventory.{reconcile_expected_fleet}
use unikernal_honeynet.Fleet.Valid.{IsListed, reconcile-Runs}
use unikernal_honeynet.Fleet.Heartbeat.{upsert_heartbeat}
use unikernal_honeynet.Fleet.Reports.{Beaten, upsert_heartbeat-Runs}
use unikernal_honeynet.Fleet.Refresh.{health_of}
use unikernal_honeynet.Fleet.Report.{merged_decoy}
use unikernal_honeynet.Fleet.Thresholds.{badness, health_worsens, quiet_report}
use unikernal_honeynet.Ingest.{event_key}
use unikernal_honeynet.Ingest.Once.{Keyed}
use unikernal_honeynet.Detections.Rules.{
  Window, window_of, types_to_emit, is_login, sensitive_hits, type_name, detection_fingerprint,
}
use unikernal_honeynet.Detections.Record.{
  record_detection, new_detection, repeated_detection, with_stats, new_investigation,
}
use unikernal_honeynet.Detections.Materialize.{
  first_of_types, materialize_detections, is_pending, pending_events,
}
use unikernal_honeynet.Detections.Emitted.{
  times, emits, calls_for, in_window, recorded_once, stuffing_is_bruteforce, bruteforce_counts_all,
}
use unikernal_honeynet.Detections.Kept.{Filed}
use unikernal_honeynet.Detections.Recorded.{Recorded, source_of, record_detection-Runs}
use unikernal_honeynet.Detections.Materialized.{Materialized, materialize_detections-Runs}
use unikernal_honeynet.Detections.Stats.{unknown_target}
use unikernal_honeynet.Api.{
  stored, unauthorized, has_text, require_ingest_key, handle_ingest, ingest_event,
  legacy_ingest_event,
}
use unikernal_honeynet.Fleet.Beaten.{HasBeaten}
use Fitting.{
  sample_heartbeat-fits, login_row-fits, pending_logins-work, none_unworkable,
  sample_engine-IsOrder, login_attempt-IsAcceptable,
}
use unikernal_honeynet.Payload.{normalize_payload}
use unikernal_honeynet.Api.Keys.{require_ingest_key_iff, wrong_key_stores}
use unikernal_honeynet.Api.Stored.{IsValid, Answered, handle_ingest_stored, resent_once}

sample-Keyed : Keyed sample_db
sample-Keyed = record { decoys = tt; events = (refl, (refl, (refl, tt))) }

sample-Filed : Filed sample_db
sample-Filed = record { investigations = (tt, refl); detections = tt }

login_method : upper login_attempt.method ≡ "POST"
unfolding upper
login_method = refl

login_earned : elem "credential_bruteforce" (earned_tags login_attempt) ≡ true
login_earned = earned_login login_attempt login_method refl

classify_event_iff_example :
    let class = classify_event login_attempt ("sqli_probe" ∷ []) in
    ((class ≡ "credential") ↔ (credential_tag ("sqli_probe" ∷ []) ≡ true))
    × ((class ≡ "recon") ↔ (
        ((credential_tag ("sqli_probe" ∷ []) || probe_tag ("sqli_probe" ∷ [])) ≡ false)
        × (recon_tag ("sqli_probe" ∷ []) ≡ true)))
    × ((class ≡ "scan") ↔ (
        ((credential_tag ("sqli_probe" ∷ [])
            || (probe_tag ("sqli_probe" ∷ []) || recon_tag ("sqli_probe" ∷ [])))
          ≡ false)
        × (login_attempt.suspicious ≡ true)))
classify_event_iff_example = classify_event_iff login_attempt ("sqli_probe" ∷ [])

reconcile-Runs_example :
    Runs (reconcile_expected_fleet sample_settings sample_engine) sample_db (λ _ d.
      FleetStep sample_db d × All (λ expected. IsListed expected d) sample_settings.expected_fleet)
reconcile-Runs_example = reconcile-Runs sample_settings sample_engine sample_db tt

upsert_heartbeat-Runs_example :
    Runs (upsert_heartbeat sample_settings sample_engine sample_heartbeat) sample_db (λ decoy d.
      Beaten sample_db (get_or sample_heartbeat.ts sample_engine.now) sample_heartbeat decoy d
      × HasBeaten (get_or sample_heartbeat.ts sample_engine.now) sample_heartbeat d)
upsert_heartbeat-Runs_example =
    upsert_heartbeat-Runs sample_settings sample_engine sample_heartbeat sample_db
      sample_heartbeat-fits tt

-- Five attempts with three user names.
abbrev busy_window : Window
busy_window = record {
  attempts = 5;
  usernames = "a" ∷ "b" ∷ "c" ∷ [];
  unique_paths = "/login" ∷ [];
  decoys_hit = "decoy-1" ∷ [];
}

recorded_once_example :
    times credential_stuffing (first_of_types [] (types_to_emit (login_row 1 "e1") busy_window))
    ≡ (if calls_for credential_stuffing (login_row 1 "e1") busy_window then 1 else 0)
recorded_once_example = recorded_once credential_stuffing (login_row 1 "e1") busy_window

stuffing : emits credential_stuffing (types_to_emit (login_row 1 "e1") busy_window) ≡ true
unfolding types_to_emit is_login sensitive_hits type_name
stuffing = refl

bruteforce_counts_all_example :
    emits credential_bruteforce (
      types_to_emit
        (login_row 3 "e3")
        (window_of sample_settings pending_logins (login_row 3 "e3")))
    ≡ (is_login (login_row 3 "e3")
        && leb 3 (
            count_if
              (in_window (login_row 3 "e3") sample_settings.detection_window_minutes)
              pending_logins))
bruteforce_counts_all_example =
    bruteforce_counts_all sample_settings pending_logins (login_row 3 "e3")

record_detection-Runs_example :
    Runs (record_detection (login_row 3 "e3") bruteforce) sample_db (λ _ d.
      Recorded
        (detection_fingerprint (login_row 3 "e3") credential_bruteforce)
        (source_of (login_row 3 "e3"))
        sample_db
        d)
record_detection-Runs_example =
    record_detection-Runs (login_row 3 "e3") bruteforce sample_db refl login_row-fits sample-Filed

materialize_detections-Runs_example :
    Runs
      (materialize_detections sample_settings sample_engine 200)
      sample_db
      (Materialized sample_settings 200 (pending_events sample_engine 200 pending_logins) sample_db)
materialize_detections-Runs_example =
    materialize_detections-Runs sample_settings sample_engine 200 sample_db tt sample-Filed
      (unfold pending_events is_pending in pending_logins-work)

abbrev unknown_row : Event
unknown_row = record (login_row 1 "e1") { src_ip = "unknown" }

unknown_target_example :
    let row = new_detection 5 6 unknown_row "f" bruteforce in
    (row.recommended_block_targets ≡ [])
    × ((repeated_detection 6 unknown_row bruteforce row).recommended_block_targets ≡ "unknown" ∷ [])
unknown_target_example = unknown_target 5 6 unknown_row "f" bruteforce refl

require_ingest_key_iff_example : (require_ingest_key sample_settings (some "secret") ≡ true) ↔ (
    (some "secret" ≡ some sample_settings.ingest_api_key)
    ⊎ ((sample_settings.allow_legacy_unauthenticated_ingest ≡ true)
        × (has_text (some "secret") ≡ false)))
require_ingest_key_iff_example = require_ingest_key_iff sample_settings (some "secret")

wrong_ne_secret : ◌≢◌ {A = String} "wrong" "secret"
wrong_ne_secret = ground (arith, eq_iff "wrong" "secret")

wrong_key_stores_example :
    (ingest_event sample_settings sample_engine (some "wrong") login_attempt sample_db
      ≡ (unauthorized, sample_db))
    × (legacy_ingest_event sample_settings sample_engine (some "wrong") login_attempt sample_db
        ≡ ingest_event sample_settings sample_engine (some "secret") login_attempt sample_db)
wrong_key_stores_example =
    wrong_key_stores sample_settings sample_engine "wrong" login_attempt sample_db refl
      wrong_ne_secret

sample-IsValid : IsValid sample_settings sample_db
sample-IsValid = record { keyed = sample-Keyed; filed = sample-Filed; works = none_unworkable }

handle_ingest_stored_example :
    (id : String) × Answered sample_settings sample_db
      (handle_ingest sample_settings sample_engine login_attempt sample_db)
      id
    × ((given : String) → login_attempt.event_id ≡ some given → truthy given ≡ true → id ≡ given)
handle_ingest_stored_example =
    handle_ingest_stored sample_settings sample_engine login_attempt sample_db sample_engine-IsOrder
      login_attempt-IsAcceptable sample-IsValid

resent_once_example :
    let first = handle_ingest sample_settings sample_engine login_attempt sample_db in
    let second = handle_ingest sample_settings sample_engine login_attempt first.1 in
    (first.0 ≡ stored "e4")
    × (second.0 ≡ stored "e4")
    × (has_key event_key "e4" first.1.events ≡ true)
    × ((k : String) → has_key event_key k second.1.events ≡ has_key event_key k first.1.events)
resent_once_example =
    resent_once sample_settings sample_engine sample_engine login_attempt sample_db "e4"
      sample_engine-IsOrder sample_engine-IsOrder login_attempt-IsAcceptable
      login_attempt-IsAcceptable sample-IsValid refl refl
