-- ===== src/Exports/Lasting.antt =====
-- The routes of exports in ingest_api/main.py: the management summary, and what no export breaks.
use unikernal_honeynet.Base.{
  ℕ, String, true, false, List, [], ◌∷◌, Option, none, some, ◌≡◌, refl, sym, ap, subst, ◌∙◌, arith,
  ◌==◌, str_eq, if◌then◌else◌, filter, take, Bool-cases, inl, inr,
}
use unikernal_honeynet.Schemas.{Settings}
use unikernal_honeynet.Models.{Db, Artifact, Event, Investigation}
use unikernal_honeynet.Session.{ok, ◌>>◌, Engine, one, gets}
use unikernal_honeynet.Fleet.Inventory.{reconcile_expected_fleet}
use unikernal_honeynet.Fleet.Refresh.{refresh_fleet_health}
use unikernal_honeynet.Session.Keys.{has_key}
use unikernal_honeynet.Jobs.{Job, Answer, ret, ◌>>=◌, and_then, in_session, commit, from_session}
use unikernal_honeynet.ObjectStore.{Client, IsLawful}
use unikernal_honeynet.Fleet.Step.{HasUnique}
use unikernal_honeynet.Posture.{posture_of}
use unikernal_honeynet.Exports.{
  Writer, Draft, summary_draft, create_artifact_record, build_blocklist_export,
  build_management_summary_export,
}
use unikernal_honeynet.Exports.Evidence.{
  EvidenceExportRequest, export_investigation, export_detection, build_evidence_export,
  detections_with_id,
}
use unikernal_honeynet.Exports.Routes.{
  ArtifactOut, export_blocklist, export_evidence, export_management_summary, build_summary_csv,
  summary_csv_draft,
}
use unikernal_honeynet.Exports.Recorded.{HasNewKeys, stored_key, create_artifact_record_lem}
use unikernal_honeynet.Exports.Downloads.{AreBelow, AreBelow-weaken, Serves, Created-Serves}
use unikernal_honeynet.Exports.Valid.{IsValid, Stores, Stores-Holds, Holds}
use unikernal_honeynet.Exports.Served.{query_posture-Runs, kept_draft}

-- A request for an export.
pub data Export : Type 0 where
  blocklist : (format : String) → Export
  evidence : (request : EvidenceExportRequest) → Export
  summary : (format : String) (limit : ℕ) → Export

module _ (C : Client) (settings : Settings) (engine : Engine) (writer : Writer) where
  -- The route that a request goes to.
  unfoldable pub handle_export :
      (List Event → List Event) → Export → String → Db → C.State → Answer ArtifactOut × Db × C.State
  handle_export newest_first (blocklist format) subject db s =
      export_blocklist C settings engine writer format subject db s
  handle_export newest_first (evidence request) subject db s =
      export_evidence C settings engine writer request subject db s
  handle_export newest_first (summary format limit) subject db s =
      export_management_summary C settings engine writer newest_first format limit subject db s

module _ (C : Client) (lawful : IsLawful C) (settings : Settings) (engine : Engine)
    (writer : Writer) (subject : String) (db : Db) (s : C.State)
    (new : HasNewKeys engine writer db) where
  pub still_new : (d : Db) → d.artifacts ≡ db.artifacts → HasNewKeys engine writer d
  still_new d same n kind format = ap (has_key stored_key _) same ∙ new n kind format

  -- The document of a management summary: the posture after the fleet is refreshed, or the newest
  -- events.
  abbrev pub Summarised :
      (List Event → List Event) → String → ℕ → Answer ArtifactOut × Db × C.State → Type 0
  Summarised newest_first format limit result =
      (str_eq format "html" ≡ true
        → (d : Db) × ((reconcile_expected_fleet settings engine
                >> refresh_fleet_health settings engine)
              db
            ≡ ok (tt, d))
          × Serves C lawful settings engine writer (summary_draft subject (posture_of engine d)) db
              s result)
      × (str_eq format "html" ≡ false
          → Serves C lawful settings engine writer
              (summary_csv_draft writer subject (take limit (newest_first db.events))) db s result)

  -- Exporting a management summary stores the page of the posture, taken after the fleet is
  -- refreshed, or as CSV the newest events up to the limit, and a download of the artifact answers
  -- it, unless the store's client raises: then no table and no object has changed. The store is
  -- lawful, the artifacts' ids are below the next one, no key of the table has an identifier that
  -- uuid4 gives, and the decoys' ids are unique.
  pub export_management_summary_lem :
      (newest_first : List Event → List Event) (format : String) (limit : ℕ)
      → AreBelow db.next_id db.artifacts
      → HasUnique db
      → Summarised newest_first format limit (
          export_management_summary C settings engine writer newest_first format limit subject db s)
  unfolding export_management_summary build_management_summary_export build_summary_csv ◌>>=◌
      in_session gets ret commit
  export_management_summary_lem newest_first format limit below unique =
      let r = query_posture-Runs settings engine db unique in
      (
        λ e. (
          r.after,
          r.holds.2,
          rw e (
              rw r.runs (
                rw (← r.holds.0) (
                  Created-Serves C lawful settings engine writer (summary_draft subject r.result) db
                    r.after s _
                    (subst (AreBelow r.after.next_id) (sym r.holds.1.artifacts) (
                      AreBelow-weaken db.next_id r.after.next_id db.artifacts r.holds.1.counts
                        below))
                    (sym r.holds.1.artifacts)
                    (create_artifact_record_lem C lawful settings engine writer _ r.after s
                      (still_new r.after r.holds.1.artifacts))))),
        ),
        λ e. rw e (
            Created-Serves C lawful settings engine writer _ db db s _ below refl
              (create_artifact_record_lem C lawful settings engine writer _ db s new)),
      )

  one-Stores :
      {A : Type 0} (f : A → Job C.State Artifact) (rows : List A)
      → ((row : A) → Stores C lawful settings engine writer db s (f row db s))
      → Stores C lawful settings engine writer db s (and_then (from_session s (one rows db)) f)
  unfolding one
  one-Stores f [] h = λ b k. refl
  one-Stores f (row ∷ []) h = h row
  one-Stores f (row ∷ other ∷ rest) h = λ b k. refl

  draft_Stores :
      (draft : Draft)
      → Stores C lawful settings engine writer db s
          (create_artifact_record C settings engine writer draft db s)
  draft_Stores draft =
      kept_draft C lawful settings engine writer subject db s new draft db new refl (omega arith)

  evidence_Stores :
      (format : String) (detection_id investigation_id : Option ℕ)
      → Stores C lawful settings engine writer db s (
          (elim investigation_id as (λ _. Job C.State Artifact) [
            | none ↦ export_detection C settings engine writer format subject detection_id
            | some id ↦ export_investigation C settings engine writer format subject id
          ])
            db s)
  unfolding export_investigation export_detection ◌>>=◌ in_session gets
  evidence_Stores format detection_id none =
      one-Stores _ (detections_with_id detection_id db.detections) λ row. draft_Stores _
  evidence_Stores format detection_id (some id) =
      one-Stores _ (filter (λ (row : Investigation). row.id == id) db.investigations)
        λ row. draft_Stores _

  summary_Stores :
      (newest_first : List Event → List Event) (format : String) (limit : ℕ)
      → HasUnique db
      → Stores C lawful settings engine writer db s (
          (if str_eq format "html"
              then build_management_summary_export C settings engine writer subject
              else build_summary_csv C settings engine writer newest_first limit subject)
            db s)
  unfolding build_management_summary_export build_summary_csv ◌>>=◌ in_session gets
  summary_Stores newest_first format limit unique = elim (Bool-cases (str_eq format "html")) [
    | inl e ↦
        let r = query_posture-Runs settings engine db unique in
        rw e (
          rw r.runs (
            kept_draft C lawful settings engine writer subject db s new _ r.after
              (still_new r.after r.holds.1.artifacts) r.holds.1.artifacts r.holds.1.counts))
    | inr e ↦ rw e (draft_Stores _)
  ]

  -- After any export, whether it is answered or fails, every artifact in the table can be downloaded,
  -- if that was so before, with artifacts' ids unique and below the next one; and the ids stay so.
  -- The store is lawful, the database has unique decoy ids, and no key of the table has an identifier
  -- that uuid4 gives.
  pub handle_export-Holds :
      (newest_first : List Event → List Event) (request : Export)
      → IsValid C db s
      → HasUnique db
      → Holds C lawful settings engine writer
          (handle_export C settings engine writer newest_first request subject db s)
  unfolding handle_export export_blocklist export_evidence export_management_summary
      build_blocklist_export build_evidence_export ◌>>=◌ in_session gets ret commit
  handle_export-Holds newest_first (blocklist format) v unique =
      Stores-Holds C lawful settings engine writer db s _ v (draft_Stores _)
  handle_export-Holds newest_first (evidence request) v unique =
      Stores-Holds C lawful settings engine writer db s _ v
        (evidence_Stores request.format request.detection_id request.investigation_id)
  handle_export-Holds newest_first (summary format limit) v unique =
      Stores-Holds C lawful settings engine writer db s _ v
        (summary_Stores newest_first format limit unique)
