-- ===== src/Exports/Routes.antt =====
-- ingest_api/main.py and schemas.py, the routes of exports: what they ask for, build, list and download.
use unikernal_honeynet.Base.{
  ℕ, String, List, [], ◌∷◌, Option, none, some, if◌then◌else◌, str_eq, elem, lower, map, filter,
  take, ◌<>◌, ◌==◌,
}
use unikernal_honeynet.Schemas.{Settings}
use unikernal_honeynet.Models.{Db, Event, Artifact}
use unikernal_honeynet.Session.{gets, one, Engine}
use unikernal_honeynet.Jobs.{Job, Answer, ret, ◌>>=◌, in_session, in_store, commit}
use unikernal_honeynet.ObjectStore.{Client, get_bytes}
use unikernal_honeynet.Csv.{render_csv}
use unikernal_honeynet.Exports.{
  Writer, Draft, create_artifact_record, build_blocklist_export, build_management_summary_export,
}
use unikernal_honeynet.Exports.Evidence.{EvidenceExportRequest, build_evidence_export}

-- The validator of `format`: its lower case if that is allowed, and else a ValueError (none).
unfoldable pub validate_format : List String → String → Option String
validate_format allowed value = if elem (lower value) allowed then some (lower value) else none

unfoldable pub report_format : String → Option String
unfolding validate_format
report_format = validate_format ("html" ∷ "csv" ∷ [])

unfoldable pub evidence_format : String → Option String
unfolding validate_format
evidence_format = validate_format ("json" ∷ "html" ∷ [])

unfoldable pub blocklist_format : String → Option String
unfolding validate_format
blocklist_format = validate_format ("csv" ∷ "json" ∷ [])

pub record ArtifactOut : Type 0 where
  pub id : ℕ
  pub artifact_type : String
  pub export_format : String
  pub generated_by : String
  pub generated_at : ℕ
  pub bucket : String
  pub object_key : String
  pub linked_investigation : Option ℕ
  pub download_url : String

unfoldable pub artifact_to_out : Writer → Artifact → ArtifactOut
artifact_to_out writer artifact = record {
  id = artifact.id;
  artifact_type = artifact.artifact_type;
  export_format = artifact.export_format;
  generated_by = artifact.generated_by;
  generated_at = artifact.generated_at;
  bucket = artifact.bucket;
  object_key = artifact.object_key;
  linked_investigation = artifact.linked_investigation;
  download_url = "/api/v1/exports/" <> (writer.id_text artifact.id <> "/download");
}

-- GET /api/v1/exports
unfoldable pub list_exports : Writer → (List Artifact → List Artifact) → Db → List ArtifactOut
unfolding artifact_to_out
list_exports writer newest_first db =
    map (artifact_to_out writer) (take 100 (newest_first db.artifacts))

-- A file: its bytes, media type and Content-Disposition.
pub record Download : Type 0 where
  pub content : String
  pub media_type : String
  pub disposition : String

unfoldable pub summary_csv_draft : Writer → String → List Event → Draft
summary_csv_draft writer generated_by events = record {
  artifact_type = "management_summary";
  export_format = "csv";
  generated_by = generated_by;
  body = render_csv writer.isoformat events;
  content_type = "text/csv";
  linked_investigation = none;
}

abbrev pub disposition_of : Writer → Artifact → String
disposition_of writer artifact =
    "attachment; filename="
    <> (artifact.artifact_type
        <> ("-" <> (writer.id_text artifact.id <> ("." <> artifact.export_format))))

module _ (C : Client) (writer : Writer) where
  abbrev pub read_bytes : Artifact → C.State → Option (String × String) × C.State
  read_bytes artifact s = (get_bytes C artifact.bucket artifact.object_key s, s)

  -- GET /api/v1/exports/{artifact_id}/download
  unfoldable pub download_export : ℕ → Job C.State Download
  download_export artifact_id = do
    rows ←
        in_session
          (gets λ db. filter (λ (artifact : Artifact). artifact.id == artifact_id) db.artifacts)
    artifact ← in_session (one rows)
    found ← in_store (read_bytes artifact)
    ret (record {
      content = found.0;
      media_type = found.1;
      disposition = disposition_of writer artifact;
    })

module _ (C : Client) (settings : Settings) (engine : Engine) (writer : Writer) where
  abbrev pub out : Artifact → Job C.State ArtifactOut
  out artifact = ret (artifact_to_out writer artifact)

  -- POST /api/v1/blocklists/export
  unfoldable pub export_blocklist :
      String → String → Db → C.State → Answer ArtifactOut × Db × C.State
  unfolding commit
  export_blocklist format subject =
      commit (build_blocklist_export C settings engine writer format subject >>= out)

  -- POST /api/v1/exports/evidence
  unfoldable pub export_evidence :
      EvidenceExportRequest → String → Db → C.State → Answer ArtifactOut × Db × C.State
  unfolding commit
  export_evidence request subject =
      commit (build_evidence_export C settings engine writer request subject >>= out)

  unfoldable pub build_summary_csv : (List Event → List Event) → ℕ → String → Job C.State Artifact
  unfolding summary_csv_draft
  build_summary_csv newest_first limit subject = do
    events ← in_session (gets λ db. take limit (newest_first db.events))
    create_artifact_record C settings engine writer (summary_csv_draft writer subject events)

  -- POST /api/v1/reports/export
  unfoldable pub export_management_summary :
      (List Event → List Event)
      → String
      → ℕ
      → String
      → Db
      → C.State
      → Answer ArtifactOut × Db × C.State
  unfolding commit
  export_management_summary newest_first format limit subject = commit (
      (if str_eq format "html"
        then build_management_summary_export C settings engine writer subject
        else build_summary_csv newest_first limit subject)
      >>= out)
