-- ===== src/Exports/Recorded.antt =====
-- The exports of ingest_api/services.py, whatever the object store does: what each leaves behind.
use unikernal_honeynet.Base.{
  ℕ, suc, ◌≤◌, String, false, ◌&&◌, List, [], ◌∷◌, ◌++◌, Option, none, some, ◌≡◌, refl, ◌∙◌, arith,
  str_eq, eq_iff, if◌then◌else◌, All,
}
use unikernal_honeynet.Schemas.{Settings}
use unikernal_honeynet.Models.{Db, Artifact}
use unikernal_honeynet.Session.{Engine, modify, fresh_id}
use unikernal_honeynet.Session.Keys.{has_key}
use unikernal_honeynet.Jobs.{
  Job, Outcome, done, failed, ret, ◌>>=◌, and_then, in_session, in_store, from_store,
}
use unikernal_honeynet.ObjectStore.{Client, IsLawful, IsReliable, get_bytes}
use unikernal_honeynet.ObjectStore.Kept.{Put, put_bytes_lem}
use unikernal_honeynet.Exports.{
  Writer, Draft, artifact_key, new_artifact, add_artifact, create_artifact_record,
}

abbrev pub stored_key : Artifact → String
stored_key artifact = artifact.object_key

-- The outcome of a job: what holds if it is done, and what if it failed.
abbrev pub Ends : {S A : Type 0} → (A → Db → S → Type 0) → (S → Type 0) → Outcome S A → Type 0
Ends P Q (done a db s) = P a db s
Ends P Q (failed e s) = Q s

module _ {S A B : Type 0} where
  pub Ends-bind :
      (P : A → Db → S → Type 0) (P' : B → Db → S → Type 0) (Q : S → Type 0) (o : Outcome S A)
      (f : A → Job S B)
      → Ends P Q o
      → ((a : A) (db : Db) (s : S) → P a db s → Ends P' Q (f a db s))
      → Ends P' Q (and_then o f)
  Ends-bind P P' Q (done a db s) f h next = next a db s h
  Ends-bind P P' Q (failed e s) f h next = h

-- uuid4 gives no identifier that is in a key of the table.
abbrev pub HasNewKeys : Engine → Writer → Db → Type 0
HasNewKeys engine writer db =
    (n : ℕ) (artifact_type export_format : String)
    → has_key stored_key (artifact_key engine writer n artifact_type export_format) db.artifacts
      ≡ false

module _ (C : Client) (lawful : IsLawful C) (settings : Settings) (engine : Engine)
    (writer : Writer) where
  -- What an export leaves: its artifact is the last of the table, the document is in the store under
  -- the artifact's bucket and key, and no artifact that was there has lost its bytes.
  pub record Created (draft : Draft) (db : Db) (s : C.State) (artifact : Artifact) (d : Db)
      (t : C.State) : Type 0 where
    pub id : ℕ
    pub place : String × String
    pub newer : db.next_id ≤ id
    pub row : artifact ≡ new_artifact engine draft id place
    pub bytes :
        get_bytes C artifact.bucket artifact.object_key t ≡ some (draft.body, draft.content_type)
    pub rows : d.artifacts ≡ db.artifacts ++ artifact ∷ []
    pub kept :
        All
          (λ (other : Artifact).
            get_bytes C other.bucket other.object_key t
            ≡ get_bytes C other.bucket other.object_key s)
          db.artifacts
    pub others : d ≡ record db { next_id = suc id; artifacts = d.artifacts }

  -- The client raised, and every object is as it was.
  abbrev pub Untouched : C.State → C.State → Type 0
  Untouched s t = (¬ IsReliable C) × ((b k : String) → get_bytes C b k t ≡ get_bytes C b k s)

  others_kept :
      (bucket key : String) (found : Option (String × String)) (s t : C.State)
      → ((b k : String)
          → get_bytes C b k t
            ≡ (if str_eq bucket b && str_eq key k then found else get_bytes C b k s))
      → (rows : List Artifact) → has_key stored_key key rows ≡ false
      → All
          (λ (other : Artifact).
            get_bytes C other.bucket other.object_key t
            ≡ get_bytes C other.bucket other.object_key s)
          rows
  others_kept bucket key found s t h [] new = tt
  others_kept bucket key found s t h (row ∷ rows) new = (
    h row.bucket row.object_key
        ∙ ground (arith, new, eq_iff row.object_key key, eq_iff key row.object_key),
    others_kept bucket key found s t h rows (ground (arith, new)),
  )

  recorded :
      (draft : Draft) (db : Db) (s : C.State) (result : Option (String × String) × C.State)
      → HasNewKeys engine writer db
      → Put C lawful settings
          (artifact_key engine writer db.next_id draft.artifact_type draft.export_format)
          draft.body
          draft.content_type
          s
          result
      → Ends (Created draft db s) (Untouched s) (
          and_then (from_store (record db { next_id = suc db.next_id }) result) λ place d t.
            done
              (new_artifact engine draft d.next_id place)
              (add_artifact
                (new_artifact engine draft d.next_id place)
                (record d { next_id = suc d.next_id }))
              t)
  unfolding new_artifact add_artifact
  recorded draft db s (none, t) new h = h
  recorded draft db s (some (bucket, key), t) new h = record {
    id = suc db.next_id;
    place = (bucket, key);
    newer = omega arith;
    row = refl;
    bytes =
        h.1 bucket key
        ∙ ground (
          arith,
          eq_iff bucket bucket,
          eq_iff (artifact_key engine writer db.next_id draft.artifact_type draft.export_format)
              key,
          h.0,
        );
    rows = refl;
    kept = others_kept bucket _ _ s t h.1 db.artifacts (new _ _ _);
    others = refl;
  }

  pub create_artifact_record_lem :
      (draft : Draft) (db : Db) (s : C.State)
      → HasNewKeys engine writer db
      → Ends
          (Created draft db s)
          (Untouched s)
          (create_artifact_record C settings engine writer draft db s)
  unfolding create_artifact_record ◌>>=◌ in_session in_store ret fresh_id modify
  create_artifact_record_lem draft db s new =
      recorded draft db s _ new (put_bytes_lem C lawful settings _ _ _ none s)
