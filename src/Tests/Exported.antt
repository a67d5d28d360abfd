-- ===== src/Tests/Exported.antt =====
-- The exports, the CSV texts and the worker's rounds (ingest_api/services.py, schemas.py, worker.py) at
-- concrete inputs.
use Prim.Native.String.{char_at}
use Prim.Native.String.compare.{nil-cons}
use text.Mathlib.TextLemmas.{nil-append, cons-append}
use unikernal_honeynet.Base.{
  String, false, List, [], ◌∷◌, none, some, ◌≡◌, refl, arith, map, str, str_eq, ◌<>◌, nil_text,
  cons_text, All, ap, ◌||◌,
}
use unikernal_honeynet.Models.{Db, Artifact}
use unikernal_honeynet.Worker.Stuck.{round_dies}
use unikernal_honeynet.Worker.{worker_round, dies}
use unikernal_honeynet.Session.{overflow_error}
use unikernal_honeynet.Detections.Rules.{has_cutoff}
use unikernal_honeynet.Detections.Materialize.{is_pending, pending_events}
use unikernal_honeynet.Samples.{login_row, pending_logins}
use unikernal_honeynet.Models.{Event}
use unikernal_honeynet.Base.{false}
use unikernal_honeynet.Tests.Fitting.{none_unworkable}
use unikernal_honeynet.Samples.{sample_settings, sample_engine, sample_db, pending_logins}
use unikernal_honeynet.ObjectStore.{get_bytes}
use unikernal_honeynet.ObjectStore.Memory.{Object, memory_client, memory_client-IsLawful}
use unikernal_honeynet.Csv.{needs_quotes, render_csv, fieldnames, event_fields}
use unikernal_honeynet.Csv.Reader.{read_csv}
use unikernal_honeynet.Csv.Reader.Report.{read_csv-render_csv}
use unikernal_honeynet.Csv.Reader.Blocklist.{
  IsBare, Entry, entry_row, entry_columns, read_csv-blocklist_csv,
}
use unikernal_honeynet.Posture.{list_block_targets}
use unikernal_honeynet.Exports.{Writer, blocklist_draft, blocklist_csv, artifact_key}
use unikernal_honeynet.Exports.Evidence.{EvidenceExportRequest}
use unikernal_honeynet.Exports.Routes.{export_blocklist, export_evidence, export_management_summary}
use unikernal_honeynet.Exports.Recorded.{HasNewKeys}
use unikernal_honeynet.Exports.Downloads.{Serves}
use unikernal_honeynet.Exports.Valid.{IsValid, Holds}
use unikernal_honeynet.Exports.Served.{Evident, export_blocklist_lem, export_evidence_lem}
use unikernal_honeynet.Exports.Lasting.{
  summary, handle_export, handle_export-Holds, Summarised, export_management_summary_lem,
}
use unikernal_honeynet.Worker.Backlog.{IsReady, Drained, worker_drains}
use unikernal_honeynet.Worker.{worker_rounds}

abbrev sample_writer : Writer
sample_writer = record {
  date_path = λ t. "2026/01/31";
  isoformat = str;
  dumps = λ document. "{}";
  id_text = str;
}

-- An artifact of an earlier release, under the empty key, and its object.
abbrev old_artifact : Artifact
old_artifact = record {
  id = 3;
  artifact_type = "blocklist";
  export_format = "csv";
  generated_by = "ana";
  generated_at = 0;
  bucket = "artifacts";
  object_key = "";
  linked_investigation = none;
}

abbrev old_objects : List Object
old_objects =
    record { bucket = "artifacts"; key = ""; body = "old"; content_type = "text/csv" } ∷ []

abbrev exported_db : Db
exported_db = record sample_db { artifacts = old_artifact ∷ [] }

slash : (r : String) → str_eq "" ("/" <> r) ≡ false
unfolding ◌<>◌
slash r = ground (arith, cons-append (char_at "/" 0) "" r, nil-cons (char_at "/" 0) r, nil-append r)

nonempty : (a r : String) → str_eq "" (a <> ("/" <> r)) ≡ false
nonempty String.[] r = rw (nil_text ("/" <> r)) (slash r)
nonempty (String.◌∷◌ c a) r =
    rw (cons_text c a ("/" <> r)) (ground (arith, nil-cons c (a <> ("/" <> r))))

exported_db-HasNewKeys : HasNewKeys sample_engine sample_writer exported_db
unfolding artifact_key
exported_db-HasNewKeys n artifact_type export_format =
    ap (λ b. b || false) (nonempty artifact_type _)

old_bytes : get_bytes memory_client "artifacts" "" old_objects ≡ some ("old", "text/csv")
unfolding get_bytes
old_bytes = refl

exported_db-IsValid : IsValid memory_client exported_db old_objects
exported_db-IsValid = record {
  ids = (refl, tt);
  below = (omega arith, tt);
  bytes = ((("old", "text/csv"), old_bytes), tt);
}

export_blocklist_lem_example :
    Serves memory_client memory_client-IsLawful sample_settings sample_engine sample_writer
      (blocklist_draft sample_engine sample_writer "csv" "ana"
        (list_block_targets exported_db.detections))
      exported_db
      old_objects
      (export_blocklist memory_client sample_settings sample_engine sample_writer "csv" "ana"
        exported_db old_objects)
export_blocklist_lem_example =
    export_blocklist_lem memory_client memory_client-IsLawful sample_settings sample_engine
      sample_writer "ana" exported_db old_objects exported_db-HasNewKeys (omega arith, tt) "csv"

abbrev missing_detection : EvidenceExportRequest
missing_detection = record { format = "html"; detection_id = some 99; investigation_id = none }

export_evidence_lem_example :
    Evident memory_client memory_client-IsLawful sample_settings sample_engine sample_writer "ana"
      exported_db old_objects exported_db-HasNewKeys
      (omega arith, tt)
      missing_detection
      none
      (export_evidence memory_client sample_settings sample_engine sample_writer missing_detection
        "ana" exported_db old_objects)
export_evidence_lem_example =
    export_evidence_lem memory_client memory_client-IsLawful sample_settings sample_engine
      sample_writer "ana" exported_db old_objects exported_db-HasNewKeys (omega arith, tt)
      missing_detection

export_management_summary_lem_example :
    Summarised memory_client memory_client-IsLawful sample_settings sample_engine sample_writer
      "ana" exported_db old_objects exported_db-HasNewKeys
      (λ rows. rows)
      "html"
      200
      (export_management_summary memory_client sample_settings sample_engine sample_writer
        (λ rows. rows)
        "html"
        200
        "ana"
        exported_db
        old_objects)
export_management_summary_lem_example =
    export_management_summary_lem memory_client memory_client-IsLawful sample_settings sample_engine
      sample_writer "ana" exported_db old_objects exported_db-HasNewKeys (λ rows. rows) "html" 200
      (omega arith, tt) tt

handle_export-Holds_example :
    Holds memory_client memory_client-IsLawful sample_settings sample_engine sample_writer (
      handle_export memory_client sample_settings sample_engine sample_writer
        (λ rows. rows)
        (summary "csv" 2)
        "ana"
        exported_db
        old_objects)
handle_export-Holds_example =
    handle_export-Holds memory_client memory_client-IsLawful sample_settings sample_engine
      sample_writer "ana" exported_db old_objects exported_db-HasNewKeys (λ rows. rows)
      (summary "csv" 2) exported_db-IsValid tt

read_csv-render_csv_example :
    read_csv (render_csv str pending_logins) ≡ fieldnames ∷ map (event_fields str) pending_logins
read_csv-render_csv_example = read_csv-render_csv str pending_logins

proxied-IsBare : All IsBare ("203.0.113.9" ∷ "10.0.0.1" ∷ [])
unfolding needs_quotes
proxied-IsBare = (refl, (refl, tt))

-- A source that came through a proxy, "203.0.113.9,10.0.0.1", and one that did not.
abbrev proxied : List Entry
proxied =
    record { first = "203.0.113.9"; more = "10.0.0.1" ∷ []; detections = 2; bare = proxied-IsBare }
    ∷ []

read_csv-blocklist_csv_example :
    read_csv (blocklist_csv (map entry_row proxied))
    ≡ ("target" ∷ "detections" ∷ []) ∷ map entry_columns proxied
read_csv-blocklist_csv_example = read_csv-blocklist_csv proxied

sample_db-IsReady : IsReady sample_settings sample_db
sample_db-IsReady = record {
  decoys = tt;
  filed = record { investigations = (tt, refl); detections = tt };
  events = λ k. ground arith;
  works = none_unworkable;
}

worker_drains_example :
    Drained sample_settings (worker_rounds sample_settings (λ m. sample_engine) 1 sample_db)
worker_drains_example =
    worker_drains sample_settings (λ m. sample_engine) 1 sample_db sample_db-IsReady
      (λ m p xs. refl) (omega arith)

-- An event of the first second of year 1.
abbrev early_row : Event
early_row = record (login_row 1 "e1") { occurred_at = 5 }

early_row-early : has_cutoff early_row sample_settings.detection_window_minutes ≡ false
unfolding has_cutoff
early_row-early = refl

early_first :
    pending_events sample_engine 500 (early_row ∷ pending_logins) ≡ early_row ∷ pending_logins
unfolding pending_events is_pending
early_first = refl

round_dies_example :
    let db = record sample_db { events = early_row ∷ pending_logins } in
    worker_round sample_settings sample_engine db ≡ (dies overflow_error, db)
round_dies_example =
    round_dies sample_settings sample_engine early_row pending_logins early_row-early
      (record sample_db { events = early_row ∷ pending_logins }) tt early_first
