-- ===== src/Exports/Evidence.antt =====
-- ingest_api/services.py, build_evidence_export: the evidence of an investigation or of a detection.
use unikernal_honeynet.Base.{
  ℕ, String, List, [], ◌∷◌, Option, none, some, str_eq, if◌then◌else◌, map, filter, ◌<>◌, ◌==◌,
  truthy, Bool, false,
}
use unikernal_honeynet.Schemas.{Settings, Value, text, number, texts, Dict}
use unikernal_honeynet.Models.{Detection, Investigation, Artifact}
use unikernal_honeynet.Session.{gets, one, Engine}
use unikernal_honeynet.Jobs.{Job, ◌>>=◌, in_session}
use unikernal_honeynet.ObjectStore.{Client}
use unikernal_honeynet.Detections.Rules.{type_name}
use unikernal_honeynet.Listings.{level_name}
use unikernal_honeynet.Exports.{
  value, object, objects, Document, Writer, Draft, create_artifact_record,
}

pub record EvidenceExportRequest : Type 0 where
  pub format : String
  pub detection_id : Option ℕ
  pub investigation_id : Option ℕ

-- A detection within the evidence of an investigation.
unfoldable pub detection_entry : Detection → Dict
detection_entry detection =
    ("type", text (type_name detection.detection_type))
    ∷ ("title", text detection.title)
    ∷ ("status", text detection.status)
    ∷ ("recommended_action", text detection.recommended_action)
    ∷ ("recommended_block_targets", texts detection.recommended_block_targets)
    ∷ []

unfoldable pub investigation_payload : Investigation → List Detection → Document
unfolding detection_entry
investigation_payload investigation detections =
    ("investigation", value (text investigation.fingerprint))
    ∷ ("status", value (text investigation.status))
    ∷ ("detections", objects (map detection_entry detections))
    ∷ []

unfoldable pub detection_payload : Detection → Document
detection_payload detection =
    ("detection", value (text (type_name detection.detection_type)))
    ∷ ("title", value (text detection.title))
    ∷ ("status", value (text detection.status))
    ∷ ("severity", value (text (level_name detection.severity)))
    ∷ ("confidence", value (text (level_name detection.confidence)))
    ∷ ("summary", value (text detection.summary))
    ∷ ("recommended_action", value (text detection.recommended_action))
    ∷ ("recommended_block_targets", value (texts detection.recommended_block_targets))
    ∷ ("evidence_summary", object detection.evidence_summary)
    ∷ []

-- The text under a key, and the empty text where there is none.
unfoldable pub text_at : String → Document → String
text_at key [] = ""
text_at key ((k, value (text s)) ∷ rest) = if str_eq k key then s else text_at key rest
text_at key ((k, value (number n)) ∷ rest) = text_at key rest
text_at key ((k, value (texts xs)) ∷ rest) = text_at key rest
text_at key ((k, value (Value.flag b)) ∷ rest) = text_at key rest
text_at key ((k, object d) ∷ rest) = text_at key rest
text_at key ((k, objects ds) ∷ rest) = text_at key rest

-- payload.get("title") or payload.get("investigation") or "Evidence Package"
unfoldable pub title_of : Document → String
unfolding text_at
title_of payload =
    if truthy (text_at "title" payload)
    then text_at "title" payload
    else if truthy (text_at "investigation" payload)
    then text_at "investigation" payload
    else "Evidence Package"

unfoldable pub evidence_html : Writer → Document → String
evidence_html writer payload =
    "<!doctype html><html lang='en'><head><meta charset='utf-8'><title>Evidence Package</title>"
    <> ("<style>body{font-family:Segoe UI,sans-serif;background:#f5f1e8;color:#1f2328;padding:24px;}pre{white-space:pre-wrap;background:#fff;border:1px solid #ddd;padding:16px;border-radius:12px;}</style>"
        <> ("</head><body><h1>"
            <> (title_of payload
                <> ("</h1><pre>" <> (writer.dumps payload <> "</pre></body></html>")))))

unfoldable pub evidence_draft : Writer → String → String → Option ℕ → Document → Draft
evidence_draft writer format generated_by linked_investigation payload =
    if str_eq format "html"
    then record {
      artifact_type = "evidence_package";
      export_format = "html";
      generated_by = generated_by;
      body = evidence_html writer payload;
      content_type = "text/html";
      linked_investigation = linked_investigation;
    }
    else record {
      artifact_type = "evidence_package";
      export_format = "json";
      generated_by = generated_by;
      body = writer.dumps payload;
      content_type = "application/json";
      linked_investigation = linked_investigation;
    }

abbrev in_investigation : ℕ → Detection → Option ℕ → Bool
in_investigation id detection none = false
in_investigation id detection (some linked) = linked == id

-- The detections of an investigation.
unfoldable pub detections_of : ℕ → List Detection → List Detection
detections_of id rows =
    filter (λ detection. in_investigation id detection detection.investigation_id) rows

-- The rows that `Detection.id == request.detection_id` selects: no id is no row.
unfoldable pub detections_with_id : Option ℕ → List Detection → List Detection
detections_with_id none rows = []
detections_with_id (some id) rows = filter (λ (detection : Detection). detection.id == id) rows

module _ (C : Client) (settings : Settings) (engine : Engine) (writer : Writer) where
  unfoldable pub export_investigation : String → String → ℕ → Job C.State Artifact
  export_investigation format generated_by id = do
    rows ← in_session (
        gets λ db.
          filter (λ (investigation : Investigation). investigation.id == id) db.investigations)
    investigation ← in_session (one rows)
    detections ← in_session (gets λ db. detections_of investigation.id db.detections)
    create_artifact_record C settings engine writer (
        evidence_draft writer format generated_by (some investigation.id)
          (investigation_payload investigation detections))

  unfoldable pub export_detection : String → String → Option ℕ → Job C.State Artifact
  export_detection format generated_by id = do
    rows ← in_session (gets λ db. detections_with_id id db.detections)
    detection ← in_session (one rows)
    create_artifact_record C settings engine writer (
        evidence_draft writer format generated_by detection.investigation_id
          (detection_payload detection))

  unfoldable pub build_evidence_export : EvidenceExportRequest → String → Job C.State Artifact
  build_evidence_export request generated_by = elim request.investigation_id [
    | none ↦ export_detection request.format generated_by request.detection_id
    | some id ↦ export_investigation request.format generated_by id
  ]
