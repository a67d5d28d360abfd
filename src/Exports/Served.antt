-- ===== src/Exports/Served.antt =====
-- The routes of exports in ingest_api/main.py: the document that each of them stores.
use unikernal_honeynet.Base.{
  Bool, false, ℕ, ◌≤◌, String, List, [], ◌∷◌, Option, none, some, ◌≡◌, refl, ◌==◌, filter,
}
use unikernal_honeynet.Schemas.{Settings}
use unikernal_honeynet.Models.{Db, Artifact, Detection, Investigation}
use unikernal_honeynet.Session.{ok, ◌>>=◌, ◌>>◌, Engine, no_row, multiple_rows, one, gets}
use unikernal_honeynet.Session.Total.{Runs}
use unikernal_honeynet.Jobs.{
  Job, Outcome, done, failed, session, Answer, raised, ret, ◌>>=◌ as bind_job, and_then, in_session,
  commit, end_of, from_session,
}
use unikernal_honeynet.ObjectStore.{Client, IsLawful}
use unikernal_honeynet.Fleet.Inventory.{reconcile_expected_fleet}
use unikernal_honeynet.Fleet.Refresh.{refresh_fleet_health}
use unikernal_honeynet.Fleet.Step.{HasUnique, FleetStep, FleetStep-trans}
use unikernal_honeynet.Fleet.Valid.{reconcile-Runs, refresh-Runs}
use unikernal_honeynet.Posture.{posture_of, query_posture, list_block_targets}
use unikernal_honeynet.Exports.{
  Writer, Draft, blocklist_draft, create_artifact_record, build_blocklist_export,
}
use unikernal_honeynet.Exports.Evidence.{
  EvidenceExportRequest, evidence_draft, investigation_payload, detection_payload, detections_of,
  detections_with_id, export_investigation, export_detection, build_evidence_export,
}
use unikernal_honeynet.Exports.Routes.{ArtifactOut, export_blocklist, export_evidence, out}
use unikernal_honeynet.Exports.Recorded.{
  HasNewKeys, Ends, Created, Untouched, create_artifact_record_lem,
}
use unikernal_honeynet.Exports.Downloads.{AreBelow, Serves, Created-Serves}
use unikernal_honeynet.Exports.Valid.{Stores}

-- What query_posture reports, after the inventory is written and health is refreshed, and that it
-- changes nothing but the fleet's tables.
pub query_posture-Runs :
    (settings : Settings) (engine : Engine) (s : Db)
    → HasUnique s
    → Runs (query_posture settings engine) s (λ posture d.
      (posture ≡ posture_of engine d)
      × FleetStep s d
      × ((reconcile_expected_fleet settings engine >> refresh_fleet_health settings engine) s
          ≡ ok (tt, d)))
unfolding query_posture ◌>>=◌ gets
query_posture-Runs settings engine s u =
    let a = reconcile-Runs settings engine s u in
    let b = refresh-Runs settings engine a.after a.holds.0.unique in
    record {
      result = posture_of engine b.after;
      after = b.after;
      runs = rw a.runs (rw b.runs refl);
      holds = (refl, FleetStep-trans s a.after b.after a.holds.0 b.holds, rw a.runs b.runs);
    }

-- The detection is one of the investigation.
abbrev pub linked_to : ℕ → Detection → Bool
linked_to id row = elim row.investigation_id [ none ↦ false | some linked ↦ linked == id ]

module _ (C : Client) (lawful : IsLawful C) (settings : Settings) (engine : Engine)
    (writer : Writer) (subject : String) (db : Db) (s : C.State)
    (new : HasNewKeys engine writer db) where
  pub kept_draft :
      (draft : Draft) (d : Db)
      → HasNewKeys engine writer d
      → d.artifacts ≡ db.artifacts
      → db.next_id ≤ d.next_id
      → Stores C lawful settings engine writer db s
          (create_artifact_record C settings engine writer draft d s)
  kept_draft draft d fresh same le =
      weaken (create_artifact_record C settings engine writer draft d s)
        (create_artifact_record_lem C lawful settings engine writer draft d s fresh)
    where
      weaken :
          (o : Outcome C.State Artifact)
          → Ends
              (Created C lawful settings engine writer draft d s)
              (Untouched C lawful settings engine writer s)
              o
          → Stores C lawful settings engine writer db s o
      weaken (done artifact e t) h = (draft, d, same, le, h)
      weaken (failed e t) h = h.1

  module _ (below : AreBelow db.next_id db.artifacts) where
    -- Exporting the block list stores the document of the targets of the open detections in the
    -- format asked for, and a download of the artifact answers it, unless the store's client
    -- raises: then no table and no object has changed.
    -- The store is lawful, the artifacts' ids are below the next one, and no key of the table has an
    -- identifier that uuid4 gives.
    pub export_blocklist_lem :
        (format : String)
        → Serves C lawful settings engine writer
            (blocklist_draft engine writer format subject (list_block_targets db.detections))
            db
            s
            (export_blocklist C settings engine writer format subject db s)
    unfolding export_blocklist build_blocklist_export bind_job in_session gets ret commit
    export_blocklist_lem format =
        Created-Serves C lawful settings engine writer _ db db s _ below refl
          (create_artifact_record_lem C lawful settings engine writer _ db s new)

    -- What the export of evidence does when the query for its subject finds these rows.
    abbrev pub EvidenceServes :
        {A : Type 0} → (A → Draft) → List A → Answer ArtifactOut × Db × C.State → Type 0
    EvidenceServes draft [] result = result ≡ (raised (session no_row), db, s)
    EvidenceServes draft (row ∷ []) result =
        Serves C lawful settings engine writer (draft row) db s result
    EvidenceServes draft (row ∷ other ∷ rest) result =
        result ≡ (raised (session multiple_rows), db, s)

    one_served :
        {A : Type 0} (draft : A → Draft) (f : A → Job C.State Artifact) (rows : List A)
        → ((row : A)
            → f row db s ≡ create_artifact_record C settings engine writer (draft row) db s)
        → EvidenceServes draft rows (
            end_of db
              (and_then (and_then (from_session s (one rows db)) f) (out C settings engine writer)))
    unfolding one ret
    one_served draft f [] same = refl
    one_served draft f (row ∷ []) same = rw same (
        Created-Serves C lawful settings engine writer (draft row) db db s _ below refl
          (create_artifact_record_lem C lawful settings engine writer (draft row) db s new))
    one_served draft f (row ∷ other ∷ rest) same = refl

    -- The subject of a request for evidence: the investigation that it names, with all of its
    -- detections, and else the detection.
    abbrev pub Evident :
        EvidenceExportRequest → Option ℕ → Answer ArtifactOut × Db × C.State → Type 0
    Evident request (some id) result =
        EvidenceServes
          (λ (row : Investigation).
            evidence_draft writer request.format subject (some row.id)
              (investigation_payload row (filter (linked_to row.id) db.detections)))
          (filter (λ (row : Investigation). row.id == id) db.investigations) result
    Evident request none result =
        EvidenceServes
          (λ (row : Detection).
            evidence_draft writer request.format subject row.investigation_id
              (detection_payload row))
          (detections_with_id request.detection_id db.detections) result

    evidence_by :
        (request : EvidenceExportRequest) (investigation_id : Option ℕ)
        → Evident request investigation_id (
            end_of db (
              and_then
                ((elim investigation_id as (λ _. Job C.State Artifact) [
                  | none ↦
                      export_detection C settings engine writer request.format subject
                        request.detection_id
                  | some id ↦
                      export_investigation C settings engine writer request.format subject id
                ])
                  db s)
                (out C settings engine writer)))
    unfolding export_investigation export_detection detections_of bind_job in_session gets
    evidence_by request none =
        one_served _ _ (detections_with_id request.detection_id db.detections) λ row. refl
    evidence_by request (some id) =
        one_served _ _ (filter (λ (row : Investigation). row.id == id) db.investigations)
          λ row. refl

    -- Exporting evidence of an investigation stores the document of the investigation with all of its
    -- detections, and else that of the detection, in the format asked for, and a download of the
    -- artifact answers it. No table and no object changes if no row, or more than one, has the id,
    -- which is the error then, or if the store's client raises.
    -- The store is lawful, the artifacts' ids are below the next one, and no key of the table has an
    -- identifier that uuid4 gives.
    pub export_evidence_lem :
        (request : EvidenceExportRequest)
        → Evident request request.investigation_id
            (export_evidence C settings engine writer request subject db s)
    unfolding export_evidence build_evidence_export bind_job commit
    export_evidence_lem request = evidence_by request request.investigation_id
