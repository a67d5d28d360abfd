-- ===== src/Detections/Kept.antt =====
-- `_record_detection` of ingest_api/services.py returns, and keeps one row for each fingerprint.
use unikernal_honeynet.Columns.{fits}
use unikernal_honeynet.Base.{
  if◌then◌else◌, ℕ, suc, ◌+◌, String, Bool, true, false, ◌||◌, List, [], ◌∷◌, ◌++◌, Option, none,
  some, ◌≡◌, refl, ◌∙◌, sym, ap, arith, str_eq, ◌==◌, eq_iff, Bool-cases, inl, inr,
}
use unikernal_honeynet.Models.{Db, Event, Detection}
use unikernal_honeynet.Session.{ok, one_or_none, update_where}
use unikernal_honeynet.Session.Total.{
  require_then, Runs, gets_then, fresh_then, Runs-modify, Runs-insert_unique,
}
use unikernal_honeynet.Session.Keys.{
  IsUnique, IsUnique-append, IsUnique-update_where, has_key, has_key-append, has_key-update_where,
  with_key, with_key-nil,
}
use unikernal_honeynet.Detections.Rules.{Emission}
use unikernal_honeynet.Detections.Record.{
  detection_key, new_detection, repeated_detection, detection_found,
}
use unikernal_honeynet.Detections.Investigated.{AreFiled}

-- The investigations are filed, and the fingerprints of detections are unique.
pub record Filed (s : Db) : Type 0 where
  pub investigations : AreFiled s.investigations
  pub detections : IsUnique detection_key s.detections

-- The row with a fingerprint.
abbrev pub lookup_detection : String → List Detection → Option Detection
lookup_detection k [] = none
lookup_detection k (row ∷ rows) =
    if str_eq row.fingerprint k then some row else lookup_detection k rows

abbrev pub occurrences_of : Option Detection → ℕ
occurrences_of none = 0
occurrences_of (some row) = row.occurrences

-- How often the detection with a fingerprint has occurred.
abbrev pub times_seen : String → List Detection → ℕ
times_seen k rows = occurrences_of (lookup_detection k rows)

module _ (k : String) where
  pub with_key-lookup :
      (rows : List Detection) (s : Db)
      → IsUnique detection_key rows
      → one_or_none (with_key detection_key k rows) s ≡ ok (lookup_detection k rows, s)
  unfolding one_or_none
  with_key-lookup [] s u = refl
  with_key-lookup (row ∷ rows) s u = elim (Bool-cases (str_eq row.fingerprint k)) [
    | inl e ↦
        let hit : row.fingerprint ≡ k = (eq_iff row.fingerprint k).0 e in
        rw (e, with_key-nil detection_key k rows (rw hit at u.0)) refl
    | inr e ↦ rw e (with_key-lookup rows s u.1)
  ]

  lookup-none :
      (rows : List Detection)
      → lookup_detection k rows ≡ none
      → has_key detection_key k rows ≡ false
  lookup-none [] h = refl
  lookup-none (row ∷ rows) h = ground (arith, lookup-none rows)

  lookup-some :
      (rows : List Detection) (row : Detection)
      → lookup_detection k rows ≡ some row
      → (has_key detection_key k rows ≡ true) × (row.fingerprint ≡ k)
  lookup-some [] row h = absurd (cc h)
  lookup-some (x ∷ rows) row h = ground (arith, h, lookup-some rows row, eq_iff x.fingerprint k)

  lookup-append :
      (rows : List Detection) (row : Detection)
      → lookup_detection k rows ≡ none
      → row.fingerprint ≡ k
      → lookup_detection k (rows ++ row ∷ []) ≡ some row
  lookup-append [] row h e = ground (arith, eq_iff row.fingerprint k)
  lookup-append (x ∷ rows) row h e = ground (arith, lookup-append rows row)

  lookup-update_where :
      (test : Detection → Bool) (f : Detection → Detection)
      → ((row : Detection) → (f row).fingerprint ≡ row.fingerprint)
      → (rows : List Detection) (row : Detection) → lookup_detection k rows ≡ some row
      → test row ≡ true
      → lookup_detection k (update_where test f rows) ≡ some (f row)
  unfolding update_where
  lookup-update_where test f same [] row h t = absurd (cc h)
  lookup-update_where test f same (x ∷ rows) row h t =
      ground (arith, h, t, same x, lookup-update_where test f same rows row)

-- One more occurrence of a fingerprint: the only key that may be new is this one.
abbrev pub Counted : String → Db → Db → Type 0
Counted k s d =
    IsUnique detection_key d.detections
    × (times_seen k d.detections ≡ times_seen k s.detections + 1)
    × ((j : String)
        → has_key detection_key j d.detections
          ≡ (has_key detection_key j s.detections || str_eq k j))
    × (d.investigations ≡ s.investigations)
    × (d.events ≡ s.events)
    × (d.decoys ≡ s.decoys)
    × (d.credentials ≡ s.credentials)

known_or :
    (k : String) (rows : List Detection) (j : String)
    → has_key detection_key k rows ≡ true
    → has_key detection_key j rows ≡ (has_key detection_key j rows || str_eq k j)
known_or k rows j h = elim (Bool-cases (str_eq k j)) [
  | inl e ↦ rw (e, ← (eq_iff k j).0 e, h) refl
  | inr e ↦ rw e (ground arith)
]

pub detection_found-Runs :
    (id : ℕ) (event : Event) (k : String) (e : Emission) (s : Db) (o : Option Detection)
    → IsUnique detection_key s.detections
    → lookup_detection k s.detections ≡ o
    → fits 255 k ≡ true
    → Runs (detection_found id event k e o) s (λ _ d. Counted k s d)
unfolding detection_found new_detection repeated_detection
detection_found-Runs id event k e s none u h fit =
    let row = new_detection s.next_id id event k e in
    let new = lookup-none k s.detections h in
    require_then _ _ fit (
      fresh_then _ (
        gets_then _ _ (
          Runs-insert_unique detection_key row s.detections
            (λ rows' db. record db { detections = rows' }) (record s { next_id = suc s.next_id })
            (λ _ d. Counted k s d) new
            (
              IsUnique-append detection_key s.detections row u new,
              ap occurrences_of (lookup-append k s.detections row h refl)
                  ∙ sym (ap (λ o. occurrences_of o + 1) h),
              (λ j. has_key-append detection_key j s.detections row),
              refl,
              refl,
              refl,
              refl,
            ))))
detection_found-Runs id event k e s (some row) u h fit =
    let f = repeated_detection id event e in
    let test : Detection → Bool = λ other. other.id == row.id in
    let hit = lookup-some k s.detections row h in
    Runs-modify _ s _ (
      IsUnique-update_where detection_key test f (λ r. refl) s.detections u,
      ap occurrences_of (lookup-update_where k test f (λ r. refl) s.detections row h (ground arith))
          ∙ sym (ap (λ o. occurrences_of o + 1) h),
      (λ j.
          has_key-update_where detection_key test f (λ r. refl) j s.detections
          ∙ known_or k s.detections j hit.0),
      refl,
      refl,
      refl,
      refl,
    )
