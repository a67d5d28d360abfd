-- ===== src/Exports/Downloads.antt =====
-- The exports of ingest_api/main.py and the route that downloads them.
use unikernal_honeynet.Base.{
  ℕ, ◌≤◌, ◌<◌, String, false, List, [], ◌∷◌, ◌++◌, some, ◌≡◌, refl, sym, ap, subst, ◌∙◌, arith,
  ◌==◌, any, All, filter, ◌<>◌,
}
use unikernal_honeynet.Schemas.{Settings}
use unikernal_honeynet.Models.{Db, Artifact}
use unikernal_honeynet.Session.{Engine, gets, one}
use unikernal_honeynet.Jobs.{
  Outcome, done, failed, Answer, answered, raised, ret, ◌>>=◌, and_then, in_session, in_store,
  end_of,
}
use unikernal_honeynet.ObjectStore.{Client, IsLawful, get_bytes}
use unikernal_honeynet.Exports.{Writer, Draft, new_artifact}
use unikernal_honeynet.Exports.Routes.{
  ArtifactOut, artifact_to_out, Download, disposition_of, download_export,
}
use unikernal_honeynet.Exports.Recorded.{Ends, Created, Untouched}

abbrev pub with_id : ℕ → List Artifact → List Artifact
with_id id = filter (λ (artifact : Artifact). artifact.id == id)

-- No two artifacts have the same id.
abbrev pub HasIds : List Artifact → Type 0
HasIds [] = Unit
HasIds (row ∷ rows) = (any (λ (other : Artifact). other.id == row.id) rows ≡ false) × HasIds rows

-- Ids that were given are below the next one.
abbrev pub AreBelow : ℕ → List Artifact → Type 0
AreBelow n = All (λ (row : Artifact). row.id < n)

new_id :
    (n id : ℕ) (rows : List Artifact)
    → AreBelow n rows
    → n ≤ id
    → any (λ (other : Artifact). other.id == id) rows ≡ false
new_id n id [] below h = refl
new_id n id (row ∷ rows) below h = ground (arith, below.0, new_id n id rows below.1)

pub none_with_id :
    (id : ℕ) (rows : List Artifact)
    → any (λ (other : Artifact). other.id == id) rows ≡ false
    → with_id id rows ≡ []
none_with_id id [] h = refl
none_with_id id (row ∷ rows) h = ground (arith, none_with_id id rows)

last_with_id :
    (rows : List Artifact) (row : Artifact)
    → any (λ (other : Artifact). other.id == row.id) rows ≡ false
    → with_id row.id (rows ++ row ∷ []) ≡ row ∷ []
last_with_id [] row h = ground arith
last_with_id (x ∷ rows) row h = ground (arith, last_with_id rows row)

pub HasIds-append :
    (n : ℕ) (rows : List Artifact) (row : Artifact)
    → HasIds rows
    → AreBelow n rows
    → n ≤ row.id
    → HasIds (rows ++ row ∷ [])
HasIds-append n [] row u b h = (refl, tt)
HasIds-append n (x ∷ rows) row u b h = (differs rows u.0, HasIds-append n rows row u.1 b.1 h)
  where
    differs :
        (ys : List Artifact)
        → any (λ (other : Artifact). other.id == x.id) ys ≡ false
        → any (λ (other : Artifact). other.id == x.id) (ys ++ row ∷ []) ≡ false
    differs [] e = ground (arith, h, b.0)
    differs (y ∷ ys) e = ground (arith, differs ys)

pub AreBelow-weaken : (n m : ℕ) (rows : List Artifact) → n ≤ m → AreBelow n rows → AreBelow m rows
AreBelow-weaken n m [] h b = tt
AreBelow-weaken n m (row ∷ rows) h b = (omega (arith, b.0), AreBelow-weaken n m rows h b.1)

pub AreBelow-append :
    (n : ℕ) (rows : List Artifact) (row : Artifact)
    → AreBelow n rows
    → row.id < n
    → AreBelow n (rows ++ row ∷ [])
AreBelow-append n [] row b h = (h, tt)
AreBelow-append n (x ∷ rows) row b h = (b.0, AreBelow-append n rows row b.1 h)

module _ (C : Client) (writer : Writer) where
  -- What a download of an artifact with these bytes answers.
  abbrev pub file_of : Artifact → String × String → Download
  file_of artifact (content, media_type) = record {
    content = content;
    media_type = media_type;
    disposition = disposition_of writer artifact;
  }

  pub download_found :
      (artifact : Artifact) (bytes : String × String) (db : Db) (s : C.State)
      → with_id artifact.id db.artifacts ≡ artifact ∷ []
      → get_bytes C artifact.bucket artifact.object_key s ≡ some bytes
      → download_export C writer artifact.id db s ≡ done (file_of artifact bytes) db s
  unfolding download_export ◌>>=◌ in_session in_store ret gets one
  download_found artifact (content, media_type) db s row found = rw row (rw found refl)

module _ (C : Client) (lawful : IsLawful C) (settings : Settings) (engine : Engine)
    (writer : Writer) where
  -- A download of the new artifact answers the document of its draft.
  abbrev pub draft_file : Draft → ArtifactOut → Download
  draft_file draft out = record {
    content = draft.body;
    media_type = draft.content_type;
    disposition =
        "attachment; filename="
        <> (draft.artifact_type
            <> ("-" <> (writer.id_text out.id <> ("." <> draft.export_format))));
  }

  -- How a route that stores a draft ends. Either it answers with an artifact, of which a download
  -- then gives the draft's document, and every other object is as it was; or the store's client
  -- raised, and no table and no object has changed.
  abbrev pub Serves : Draft → Db → C.State → Answer ArtifactOut × Db × C.State → Type 0
  Serves draft db s (answered out, d, t) =
      (download_export C writer out.id d t ≡ done (draft_file draft out) d t)
      × (out.generated_by ≡ draft.generated_by)
      × (out.linked_investigation ≡ draft.linked_investigation)
      × All
          (λ (other : Artifact).
            get_bytes C other.bucket other.object_key t
            ≡ get_bytes C other.bucket other.object_key s)
          db.artifacts
  Serves draft db s (raised e, d, t) = (d ≡ db) × Untouched C lawful settings engine writer s t

  pub Created-Serves :
      (draft : Draft) (before db : Db) (s : C.State) (o : Outcome C.State Artifact)
      → AreBelow db.next_id db.artifacts
      → before.artifacts ≡ db.artifacts
      → Ends
          (Created C lawful settings engine writer draft db s)
          (Untouched C lawful settings engine writer s)
          o
      → Serves draft before s
          (end_of before (and_then o λ artifact d t. done (artifact_to_out writer artifact) d t))
  unfolding artifact_to_out new_artifact
  Created-Serves draft before db s (failed e t) below same h = (refl, h)
  Created-Serves draft before db s (done artifact d t) below same h =
      let id : artifact.id ≡ h.id = ap (λ (a : Artifact). a.id) h.row in
      let kind : artifact.artifact_type ≡ draft.artifact_type =
        ap (λ (a : Artifact). a.artifact_type) h.row in
      let extension : artifact.export_format ≡ draft.export_format =
        ap (λ (a : Artifact). a.export_format) h.row in
      let alone : with_id artifact.id d.artifacts ≡ artifact ∷ [] =
        ap (with_id artifact.id) h.rows
        ∙ last_with_id db.artifacts artifact
            (new_id db.next_id artifact.id db.artifacts below (omega (arith, id, h.newer))) in
      (
        download_found C writer artifact (draft.body, draft.content_type) d t alone h.bytes
            ∙ ap
                (λ (p : String × String).
                  done
                    (record {
                      content = draft.body;
                      media_type = draft.content_type;
                      disposition =
                          "attachment; filename="
                          <> (p.0 <> ("-" <> (writer.id_text artifact.id <> ("." <> p.1))));
                    })
                    d t)
                (λ i. (kind i, extension i)),
        ap (λ (a : Artifact). a.generated_by) h.row,
        ap (λ (a : Artifact). a.linked_investigation) h.row,
        subst
            (All λ (other : Artifact).
              get_bytes C other.bucket other.object_key t
              ≡ get_bytes C other.bucket other.object_key s)
            (sym same) h.kept,
      )
