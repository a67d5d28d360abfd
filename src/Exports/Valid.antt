-- ===== src/Exports/Valid.antt =====
-- The artifacts of ingest_api/main.py stay downloadable: an invariant of the table and the store.
use unikernal_honeynet.Base.{
  suc, ◌≤◌, String, false, List, [], ◌∷◌, some, ◌≡◌, sym, ap, subst, ◌∙◌, arith, ◌==◌, any, All,
  All-append,
}
use unikernal_honeynet.Schemas.{Settings}
use unikernal_honeynet.Models.{Db, Artifact}
use unikernal_honeynet.Session.{Engine}
use unikernal_honeynet.Jobs.{Outcome, done, failed, Answer, and_then, end_of}
use unikernal_honeynet.ObjectStore.{Client, IsLawful, get_bytes}
use unikernal_honeynet.Exports.{Writer, Draft, new_artifact}
use unikernal_honeynet.Exports.Routes.{artifact_to_out, ArtifactOut, Download, download_export}
use unikernal_honeynet.Exports.Recorded.{Ends, Created}
use unikernal_honeynet.Exports.Downloads.{
  with_id, HasIds, AreBelow, HasIds-append, AreBelow-weaken, AreBelow-append, none_with_id,
  download_found, file_of,
}

alone_tail :
    (x : Artifact) (rows ys : List Artifact)
    → any (λ (other : Artifact). other.id == x.id) ys ≡ false
    → All (λ a. with_id a.id rows ≡ a ∷ []) ys
    → All (λ a. with_id a.id (x ∷ rows) ≡ a ∷ []) ys
alone_tail x rows [] h p = tt
alone_tail x rows (y ∷ ys) h p =
    (ground (arith, h, p.0), alone_tail x rows ys (ground (arith, h)) p.1)

-- With unique ids, the id of a row selects the row alone.
HasIds-alone : (rows : List Artifact) → HasIds rows → All (λ a. with_id a.id rows ≡ a ∷ []) rows
HasIds-alone [] u = tt
HasIds-alone (x ∷ rows) u =
    (ground (arith, none_with_id x.id rows u.0), alone_tail x rows rows u.0 (HasIds-alone rows u.1))

module _ (C : Client) where
  abbrev pub HasBytes : C.State → Artifact → Type 0
  HasBytes s artifact =
      (bytes : String × String) × (get_bytes C artifact.bucket artifact.object_key s ≡ some bytes)

  -- Ids are unique and below the next one, and every artifact's object is in the store.
  pub record IsValid (db : Db) (s : C.State) : Type 0 where
    pub ids : HasIds db.artifacts
    pub below : AreBelow db.next_id db.artifacts
    pub bytes : All (HasBytes s) db.artifacts

  bytes_kept :
      (s t : C.State) (rows : List Artifact)
      → All
          (λ (other : Artifact).
            get_bytes C other.bucket other.object_key t
            ≡ get_bytes C other.bucket other.object_key s)
          rows
      → All (HasBytes s) rows
      → All (HasBytes t) rows
  bytes_kept s t [] same h = tt
  bytes_kept s t (row ∷ rows) same h = ((h.0.0, same.0 ∙ h.0.1), bytes_kept s t rows same.1 h.1)

  bytes_untouched :
      (s t : C.State)
      → ((b k : String) → get_bytes C b k t ≡ get_bytes C b k s)
      → (rows : List Artifact) → All (HasBytes s) rows
      → All (HasBytes t) rows
  bytes_untouched s t same [] h = tt
  bytes_untouched s t same (row ∷ rows) h =
      ((h.0.0, same row.bucket row.object_key ∙ h.0.1), bytes_untouched s t same rows h.1)

  module _ (writer : Writer) where
    abbrev pub CanDownload : Db → C.State → Artifact → Type 0
    CanDownload db s artifact =
        (file : Download) × (download_export C writer artifact.id db s ≡ done file db s)

    downloads :
        (db : Db) (s : C.State) (rows : List Artifact)
        → All (λ a. with_id a.id db.artifacts ≡ a ∷ []) rows
        → All (HasBytes s) rows
        → All (CanDownload db s) rows
    downloads db s [] alone h = tt
    downloads db s (row ∷ rows) alone h = (
      (file_of C writer row h.0.0, download_found C writer row h.0.0 db s alone.0 h.0.1),
      downloads db s rows alone.1 h.1,
    )

    pub IsValid-downloads :
        (db : Db) (s : C.State) → IsValid db s → All (CanDownload db s) db.artifacts
    IsValid-downloads db s v = downloads db s db.artifacts (HasIds-alone db.artifacts v.ids) v.bytes

module _ (C : Client) (lawful : IsLawful C) (settings : Settings) (engine : Engine)
    (writer : Writer) where
  -- A job that stores one draft, from a database with the same artifacts, or fails and stores none.
  abbrev pub Stores : Db → C.State → Outcome C.State Artifact → Type 0
  Stores before s =
      Ends
        (λ artifact d t.
          (draft : Draft) × (db : Db) × (db.artifacts ≡ before.artifacts)
          × (before.next_id ≤ db.next_id)
          × Created C lawful settings engine writer draft db s artifact d t)
        (λ t. (b k : String) → get_bytes C b k t ≡ get_bytes C b k s)

  -- What the invariant says after a route.
  abbrev pub Holds : Answer ArtifactOut × Db × C.State → Type 0
  Holds (answer, d, t) = IsValid C d t × All (CanDownload C writer d t) d.artifacts

  Created-IsValid :
      (draft : Draft) (db : Db) (s : C.State) (artifact : Artifact) (d : Db) (t : C.State)
      → IsValid C db s
      → Created C lawful settings engine writer draft db s artifact d t
      → IsValid C d t
  unfolding new_artifact
  Created-IsValid draft db s artifact d t v h =
      let id : artifact.id ≡ h.id = ap (λ (a : Artifact). a.id) h.row in
      let next : d.next_id ≡ suc h.id = ap (λ (e : Db). e.next_id) h.others in
      record {
        ids = subst HasIds (sym h.rows) (
            HasIds-append db.next_id db.artifacts artifact v.ids v.below
              (omega (arith, id, h.newer)));
        below = subst (AreBelow d.next_id) (sym h.rows) (
            AreBelow-append d.next_id db.artifacts artifact
              (AreBelow-weaken db.next_id d.next_id db.artifacts (omega (arith, next, h.newer))
                v.below)
              (omega (arith, id, next)));
        bytes = subst (All (HasBytes C t)) (sym h.rows) (
            All-append (HasBytes C t) db.artifacts (artifact ∷ [])
              (bytes_kept C s t db.artifacts h.kept v.bytes)
              (((draft.body, draft.content_type), h.bytes), tt));
      }

  pub Stores-Holds :
      (db : Db) (s : C.State) (o : Outcome C.State Artifact)
      → IsValid C db s
      → Stores db s o
      → Holds (end_of db (and_then o λ artifact d t. done (artifact_to_out writer artifact) d t))
  Stores-Holds db s (failed e t) v h =
      let after : IsValid C db t = record {
        ids = v.ids;
        below = v.below;
        bytes = bytes_untouched C s t h db.artifacts v.bytes;
      } in
      (after, IsValid-downloads C writer db t after)
  Stores-Holds db s (done artifact d t) v (draft, from, same, le, h) =
      let start : IsValid C from s = record {
        ids = subst HasIds (sym same) v.ids;
        below =
            subst (AreBelow from.next_id) (sym same)
              (AreBelow-weaken db.next_id from.next_id db.artifacts le v.below);
        bytes = subst (All (HasBytes C s)) (sym same) v.bytes;
      } in
      let after = Created-IsValid draft from s artifact d t start h in
      (after, IsValid-downloads C writer d t after)
