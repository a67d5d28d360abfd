-- ===== src/Detections/Investigated.antt =====
-- `_ensure_investigation` of ingest_api/services.py returns, and keeps one row for each fingerprint.
use unikernal_honeynet.Base.{
  any, any-append, not, ℕ, suc, String, Bool, true, false, List, [], ◌∷◌, Option, none, some, ◌≡◌,
  refl, ◌∙◌, arith, ◌==◌, eq_iff,
}
use unikernal_honeynet.Models.{Db, Event, Investigation}
use unikernal_honeynet.Session.{ok, pure, ◌>>=◌, one_or_none, update_where, insert_unique}
use unikernal_honeynet.Session.Total.{
  require_then, Runs, Runs-pure, Runs-bind, gets_then, fresh_then, Runs-modify, Runs-insert_unique,
}
use unikernal_honeynet.Session.Keys.{
  IsUnique, IsUnique-append, IsUnique-update_where, has_key, has_key-append, has_key-update_where,
  with_key, Found, one_by_key,
}
use unikernal_honeynet.Detections.Record.{
  investigation_key, new_investigation, seen_again, same_zone, write_investigation,
  investigation_found, ensure_investigation,
}

-- Each investigation's last time has a zone.
abbrev AreZoned : List Investigation → Type 0
AreZoned rows = any (λ row. not row.zoned) rows ≡ false

-- Times that are read again have a zone.
pub AreZoned_again :
    (rows : List Investigation)
    → any
        (λ row. not row.zoned)
        (update_where
          (λ (row : Investigation). true)
          (λ (row : Investigation). record row { zoned = true })
          rows)
      ≡ false
unfolding update_where
AreZoned_again [] = refl
AreZoned_again (x ∷ rows) = AreZoned_again rows

-- The fingerprints of investigations are unique, and their last times have a zone.
abbrev pub AreFiled : List Investigation → Type 0
AreFiled rows = IsUnique investigation_key rows × AreZoned rows

-- The investigations grow, and nothing else is written.
abbrev pub InvestigationStep : Db → Db → Type 0
InvestigationStep s d =
    AreFiled d.investigations
    × (d.detections ≡ s.detections)
    × (d.events ≡ s.events)
    × (d.decoys ≡ s.decoys)
    × (d.credentials ≡ s.credentials)
    × ((k : String)
        → has_key investigation_key k s.investigations ≡ true
        → has_key investigation_key k d.investigations ≡ true)

AreZoned-update_where :
    (test : Investigation → Bool) (f : Investigation → Investigation)
    → ((row : Investigation) → (f row).zoned ≡ row.zoned)
    → (rows : List Investigation)
    → any (λ row. not row.zoned) (update_where test f rows) ≡ any (λ row. not row.zoned) rows
unfolding update_where
AreZoned-update_where test f same [] = refl
AreZoned-update_where test f same (x ∷ rows) =
    ground (arith, same x, AreZoned-update_where test f same rows)

-- What a query for a key finds has a zone.
found-AreZoned :
    (k : String) (rows : List Investigation) (row : Investigation) (s d : Db)
    → AreZoned rows
    → one_or_none (with_key investigation_key k rows) s ≡ ok (some row, d)
    → row.zoned ≡ true
unfolding one_or_none
found-AreZoned k rows row s d z h = only _ (kept rows z) h
  where
    kept :
        (rows : List Investigation) → AreZoned rows → AreZoned (with_key investigation_key k rows)
    kept [] z = refl
    kept (x ∷ rows) z = ground (arith, z, kept rows)

    only :
        (rows : List Investigation)
        → AreZoned rows
        → one_or_none rows s ≡ ok (some row, d)
        → row.zoned ≡ true
    only [] z h = absurd (cc h)
    only (x ∷ []) z h = ground (arith, z, h)
    only (x ∷ y ∷ rows) z h = absurd (cc h)

pub write_investigation-Runs :
    (id : ℕ) (f : Investigation → Investigation) (s : Db)
    → ((row : Investigation) → investigation_key (f row) ≡ investigation_key row)
    → ((row : Investigation) → (f row).zoned ≡ row.zoned)
    → AreFiled s.investigations
    → Runs (write_investigation id f) s (λ _ d. InvestigationStep s d)
unfolding write_investigation
write_investigation-Runs id f s same zone u = Runs-modify _ s _ (
  (
    IsUnique-update_where investigation_key (λ row. row.id == id) f same s.investigations u.0,
    AreZoned-update_where (λ row. row.id == id) f zone s.investigations ∙ u.1,
  ),
  refl,
  refl,
  refl,
  refl,
  λ k known.
      has_key-update_where investigation_key (λ row. row.id == id) f same k s.investigations
      ∙ known,
)

add_investigation-Runs :
    (row : Investigation) (s : Db)
    → row.zoned ≡ true
    → AreFiled s.investigations
    → has_key investigation_key row.fingerprint s.investigations ≡ false
    → Runs
        (insert_unique investigation_key row s.investigations
            (λ rows' db. record db { investigations = rows' })
          >>= λ _. pure row.id)
        (record s { next_id = suc s.next_id })
        (λ _ d.
          InvestigationStep s d
          × (has_key investigation_key row.fingerprint d.investigations ≡ true))
add_investigation-Runs row s zone u new =
    Runs-bind _ _
      (Runs-insert_unique investigation_key row s.investigations
        (λ rows' db. record db { investigations = rows' }) (record s { next_id = suc s.next_id })
        (λ _ d.
          InvestigationStep s d
          × (has_key investigation_key row.fingerprint d.investigations ≡ true))
        new
        (
          (
            (
              IsUnique-append investigation_key s.investigations row u.0 new,
              any-append (λ r. not r.zoned) s.investigations (row ∷ []) ∙ ground (arith, zone, u.1),
            ),
            refl,
            refl,
            refl,
            refl,
            (λ k known.
                has_key-append investigation_key k s.investigations row ∙ ground (arith, known)),
          ),
          has_key-append investigation_key row.fingerprint s.investigations row
              ∙ ground (arith, eq_iff row.fingerprint row.fingerprint),
        ))
      λ _ e h. Runs-pure row.id e _ h

abbrev HasZone : Option Investigation → Type 0
HasZone none = Unit
HasZone (some row) = row.zoned ≡ true

zone_of :
    (k : String) (rows : List Investigation) (s d : Db) (o : Option Investigation)
    → AreZoned rows
    → one_or_none (with_key investigation_key k rows) s ≡ ok (o, d)
    → HasZone o
zone_of k rows s d none z h = tt
zone_of k rows s d (some row) z h = found-AreZoned k rows row s d z h

abbrev Investigated : String → Db → ℕ → Db → Type 0
Investigated k s id d =
    InvestigationStep s d × (has_key investigation_key k d.investigations ≡ true)

investigation_cases :
    (k : String) (event : Event) (s d : Db) (o : Option Investigation)
    → event.zoned ≡ true
    → AreFiled s.investigations
    → Found investigation_key k s.investigations s o d
    → HasZone o
    → Runs (investigation_found k event o) d (Investigated k s)
unfolding investigation_found new_investigation seen_again same_zone
investigation_cases k event s d none zone u g z = rw g.0 (
    fresh_then _
      (gets_then _ _ (add_investigation-Runs (new_investigation s.next_id k event) s zone u g.1)))
investigation_cases k event s d (some row) zone u g z = rw g.0 (
    require_then _ _ (rw (zone, z) refl) (
      Runs-bind _ _ (write_investigation-Runs row.id (seen_again event) s (λ r. refl) (λ r. refl) u)
        λ _ e h. Runs-pure row.id e _ (h, h.5 k g.2)))

pub ensure_investigation-Runs :
    (fingerprint : String) (event : Event) (s : Db)
    → event.zoned ≡ true
    → AreFiled s.investigations
    → Runs (ensure_investigation fingerprint event) s (λ _ d.
      InvestigationStep s d × (has_key investigation_key fingerprint d.investigations ≡ true))
unfolding ensure_investigation
ensure_investigation-Runs k event s zone u =
    let r = one_by_key investigation_key k s.investigations s u.0 in
    let q : Runs (one_or_none (with_key investigation_key k s.investigations)) s
        (λ o d. Found investigation_key k s.investigations s o d × HasZone o) =
      record {
        result = r.result;
        after = r.after;
        runs = r.runs;
        holds = (r.holds, zone_of k s.investigations s r.after r.result u.1 r.runs);
      } in
    gets_then _ _ (Runs-bind _ _ q λ o d g. investigation_cases k event s d o zone u g.0 g.1)
