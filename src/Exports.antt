-- ===== src/Exports.antt =====
-- ingest_api/services.py, the exports: a document is built from the database, put into the object
-- store, and recorded as an artifact.
pub mod Evidence
pub mod Routes
pub mod Recorded
pub mod Downloads
pub mod Valid
pub mod Served
pub mod Lasting
use unikernal_honeynet.Base.{
  ℕ, String, List, [], ◌∷◌, ◌++◌, Option, none, some, str_eq, if◌then◌else◌, map, filter, join,
  ◌<>◌, str, or_text, ◌==◌,
}
use unikernal_honeynet.Schemas.{Settings, Value, text, number, texts, Dict}
use unikernal_honeynet.Models.{Db, Artifact}
use unikernal_honeynet.Session.{gets, modify, fresh_id, Engine}
use unikernal_honeynet.ObjectStore.{Client, put_bytes}
use unikernal_honeynet.Jobs.{Job, ret, ◌>>=◌, ◌>>◌, in_session, in_store}
use unikernal_honeynet.Posture.{Posture, query_posture, list_block_targets}

-- A value of a document: one that the services store, an object, or a list of objects.
pub data Json : Type 0 where
  value : Value → Json
  object : Dict → Json
  objects : List Dict → Json

abbrev pub Document : Type 0
Document = List (String × Json)

-- What the exports take from Python's library: strftime('%Y/%m/%d') and isoformat of a time,
-- json.dumps with indent=2, and the text of an artifact's id.
pub record Writer : Type 0 where
  pub date_path : ℕ → String
  pub isoformat : ℕ → String
  pub dumps : Document → String
  pub id_text : ℕ → String

-- The n-th random identifier stands for the `uuid4` of the call.
unfoldable pub artifact_key : Engine → Writer → ℕ → String → String → String
artifact_key engine writer n artifact_type export_format =
    artifact_type
    <> ("/" <> (writer.date_path engine.now <> ("/" <> (engine.uuid4 n <> ("." <> export_format)))))

-- What `create_artifact_record` is called with.
pub record Draft : Type 0 where
  pub artifact_type : String
  pub export_format : String
  pub generated_by : String
  pub body : String
  pub content_type : String
  pub linked_investigation : Option ℕ

unfoldable pub new_artifact : Engine → Draft → ℕ → String × String → Artifact
new_artifact engine draft id (bucket, object_key) = record {
  id = id;
  artifact_type = draft.artifact_type;
  export_format = draft.export_format;
  generated_by = draft.generated_by;
  generated_at = engine.now;
  bucket = bucket;
  object_key = object_key;
  linked_investigation = draft.linked_investigation;
}

unfoldable pub add_artifact : Artifact → Db → Db
add_artifact artifact db = record db { artifacts = db.artifacts ++ artifact ∷ [] }

abbrev pub csv_line : String × ℕ → String
csv_line (target, detections) = target <> ("," <> str detections)

-- The lines of the block list's CSV file, and its text.
unfoldable pub blocklist_lines : List (String × ℕ) → List String
blocklist_lines rows = "target,detections" ∷ map csv_line rows

unfoldable pub blocklist_csv : List (String × ℕ) → String
unfolding blocklist_lines
blocklist_csv rows = join "\n" (blocklist_lines rows) <> "\n"

abbrev entry_of : String × ℕ → Dict
entry_of (target, detections) = ("target", text target) ∷ ("detections", number detections) ∷ []

unfoldable pub blocklist_json : Writer → ℕ → List (String × ℕ) → Document
blocklist_json writer now rows =
    ("generated_at", value (text (writer.isoformat now)))
    ∷ ("entries", objects (map entry_of rows))
    ∷ []

unfoldable pub blocklist_draft : Engine → Writer → String → String → List (String × ℕ) → Draft
blocklist_draft engine writer export_format generated_by rows =
    if str_eq export_format "json"
    then record {
      artifact_type = "blocklist";
      export_format = "json";
      generated_by = generated_by;
      body = writer.dumps (blocklist_json writer engine.now rows);
      content_type = "application/json";
      linked_investigation = none;
    }
    else record {
      artifact_type = "blocklist";
      export_format = "csv";
      generated_by = generated_by;
      body = blocklist_csv rows;
      content_type = "text/csv";
      linked_investigation = none;
    }

-- `', '.join(items) or default`
abbrev listed_or : List String → String → String
listed_or items default = or_text (join ", " items) default

unfoldable pub summary_html : Posture → String
summary_html posture =
    "<!doctype html><html lang='en'><head><meta charset='utf-8'><title>Management Summary</title>"
    <> ("<style>body{font-family:Segoe UI,sans-serif;background:#f5f1e8;color:#1f2328;padding:24px;}section{background:#fff;border:1px solid #ddd;padding:18px;border-radius:16px;margin-bottom:16px;}ul{line-height:1.6;}</style>"
        <> ("</head><body><h1>Management Summary</h1>"
            <> ("<section><h2>Detection posture</h2><ul><li>New detections: "
                <> (str posture.detections_new
                    <> ("</li><li>In triage: "
                        <> (str posture.detections_in_triage
                            <> ("</li><li>Unhealthy fleet members: "
                                <> (str posture.fleet_unhealthy
                                    <> ("</li><li>Coverage gaps: "
                                        <> (listed_or posture.coverage_gaps "none"
                                            <> ("</li></ul></section>"
                                                <> ("<section><h2>Recommended blocks</h2><p>"
                                                    <> (listed_or posture.recommended_blocks
                                                          "No immediate block recommendations."
                                                        <> ("</p></section>"
                                                            <> "</body></html>"))))))))))))))

unfoldable pub summary_draft : String → Posture → Draft
unfolding summary_html
summary_draft generated_by posture = record {
  artifact_type = "management_summary";
  export_format = "html";
  generated_by = generated_by;
  body = summary_html posture;
  content_type = "text/html";
  linked_investigation = none;
}

module _ (C : Client) (settings : Settings) (engine : Engine) (writer : Writer) where
  unfoldable pub create_artifact_record : Draft → Job C.State Artifact
  unfolding add_artifact
  create_artifact_record draft = do
    n ← in_session fresh_id
    place ← in_store (
        put_bytes C settings (artifact_key engine writer n draft.artifact_type draft.export_format)
          draft.body draft.content_type none)
    id ← in_session fresh_id
    in_session (modify (add_artifact (new_artifact engine draft id place)))
    ret (new_artifact engine draft id place)

  unfoldable pub build_blocklist_export : String → String → Job C.State Artifact
  build_blocklist_export export_format generated_by = do
    rows ← in_session (gets λ db. list_block_targets db.detections)
    create_artifact_record (blocklist_draft engine writer export_format generated_by rows)

  unfoldable pub build_management_summary_export : String → Job C.State Artifact
  build_management_summary_export generated_by = do
    posture ← in_session (query_posture settings engine)
    create_artifact_record (summary_draft generated_by posture)
