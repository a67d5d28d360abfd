-- ===== src/Detections/Workable.antt =====
-- The events that materialize_detections of ingest_api/services.py can work on.
use unikernal_honeynet.Base.{
  ℕ, zero, suc, ◌≤◌, Bool, true, ◌&&◌, not, List, [], ◌∷◌, ◌≡◌, refl, arith, All, count_if, take,
  filter, ◌==◌,
}
use unikernal_honeynet.Schemas.{Settings}
use unikernal_honeynet.Models.{
  Event, DetectionType, internet_recon, credential_bruteforce, credential_stuffing,
  path_traversal_probe, xss_probe, sqli_probe, sensitive_path_discovery, admin_panel_enumeration,
  distributed_scanner_activity,
}
use unikernal_honeynet.Columns.{fits}
use unikernal_honeynet.Session.{Engine, update_where}
use unikernal_honeynet.Detections.Rules.{has_cutoff, detection_fingerprint}
use unikernal_honeynet.Detections.Materialize.{is_pending, pending_events}

-- A fingerprint of the event with the type fits its column.
abbrev fits_type : Event → DetectionType → Bool
fits_type event t = fits 255 (detection_fingerprint event t)

-- The event's time has a zone and leaves room for both windows after the start of year 1, and the
-- fingerprints of its detections fit their column.
unfoldable pub workable : Settings → Event → Bool
workable settings event =
    event.zoned
    && has_cutoff event settings.detection_window_minutes
    && has_cutoff event settings.distributed_window_minutes
    && fits_type event internet_recon
    && fits_type event credential_bruteforce
    && fits_type event credential_stuffing
    && fits_type event path_traversal_probe
    && fits_type event xss_probe
    && fits_type event sqli_probe
    && fits_type event sensitive_path_discovery
    && fits_type event admin_panel_enumeration
    && fits_type event distributed_scanner_activity

pub record IsWorkable (settings : Settings) (event : Event) : Type 0 where
  pub zoned : event.zoned ≡ true
  pub near : has_cutoff event settings.detection_window_minutes ≡ true
  pub wide : has_cutoff event settings.distributed_window_minutes ≡ true
  pub names : (t : DetectionType) → fits 255 (detection_fingerprint event t) ≡ true

pub workable-IsWorkable :
    (settings : Settings) (event : Event)
    → workable settings event ≡ true
    → IsWorkable settings event
unfolding workable
workable-IsWorkable settings event h = record {
  zoned = ground (arith, h);
  near = ground (arith, h);
  wide = ground (arith, h);
  names = names;
}
  where
    names : (t : DetectionType) → fits 255 (detection_fingerprint event t) ≡ true
    names internet_recon = ground (arith, h)
    names credential_bruteforce = ground (arith, h)
    names credential_stuffing = ground (arith, h)
    names path_traversal_probe = ground (arith, h)
    names xss_probe = ground (arith, h)
    names sqli_probe = ground (arith, h)
    names sensitive_path_discovery = ground (arith, h)
    names admin_panel_enumeration = ground (arith, h)
    names distributed_scanner_activity = ground (arith, h)

-- How many events cannot be worked on.
abbrev pub unworkable : Settings → List Event → ℕ
unworkable settings = count_if λ event. not (workable settings event)

pub count_if-update_where :
    (p test : Event → Bool) (f : Event → Event)
    → ((row : Event) → p (f row) ≡ p row)
    → (rows : List Event) → count_if p (update_where test f rows) ≡ count_if p rows
unfolding update_where
count_if-update_where p test f same [] = refl
count_if-update_where p test f same (row ∷ rows) =
    ground (arith, same row, count_if-update_where p test f same rows)

pub unworkable-mark :
    (settings : Settings) (id : ℕ) (rows : List Event)
    → unworkable settings (
        update_where
          (λ (row : Event). row.id == id)
          (λ (row : Event). record row { alert_processed = true })
          rows)
      ≡ unworkable settings rows
unfolding workable has_cutoff detection_fingerprint
unworkable-mark settings id rows = count_if-update_where _ _ _ (λ row. refl) rows

workable_zoned :
    (settings : Settings) (row : Event)
    → workable settings row ≡ true
    → workable settings (record row { zoned = true }) ≡ true
unfolding workable has_cutoff detection_fingerprint
workable_zoned settings row h = ground (arith, h)

-- An event can be worked on after its time is read again, if it could be before.
pub workable_again :
    (settings : Settings) (rows : List Event)
    → unworkable settings rows ≡ 0
    → unworkable settings
        (update_where (λ (row : Event). true) (λ (row : Event). record row { zoned = true }) rows)
      ≡ 0
unfolding update_where
workable_again settings [] h = refl
workable_again settings (row ∷ rows) h =
    let here : workable settings row ≡ true = ground (arith, h) in
    let rest = workable_again settings rows (omega (arith, h)) in
    rw (workable_zoned settings row here) (omega (arith, rest))

-- The database's order by time has the rows that it is given, each as often.
abbrev pub IsOrder : Engine → Type 0
IsOrder engine =
    (p : Event → Bool) (xs : List Event) → count_if p (engine.oldest_first xs) ≡ count_if p xs

module _ (p : Event → Bool) where
  count_if-filter : (q : Event → Bool) (xs : List Event) → count_if p (filter q xs) ≤ count_if p xs
  count_if-filter q [] = omega arith
  count_if-filter q (x ∷ xs) = ground (arith, count_if-filter q xs)

  count_if-take : (n : ℕ) (xs : List Event) → count_if p (take n xs) ≤ count_if p xs
  count_if-take zero xs = omega arith
  count_if-take (suc n) [] = omega arith
  count_if-take (suc n) (x ∷ xs) = omega (arith, count_if-take n xs)

All-workable :
    (settings : Settings) (xs : List Event)
    → unworkable settings xs ≡ 0
    → All (λ event. workable settings event ≡ true) xs
All-workable settings [] h = tt
All-workable settings (x ∷ xs) h = (ground (arith, h), All-workable settings xs (omega (arith, h)))

-- If every event can be worked on, then so can those that a call takes.
pub pending-workable :
    (settings : Settings) (engine : Engine) (limit : ℕ) (rows : List Event)
    → IsOrder engine
    → unworkable settings rows ≡ 0
    → All (λ event. workable settings event ≡ true) (pending_events engine limit rows)
unfolding pending_events
pending-workable settings engine limit rows order h =
    let p : Event → Bool = λ event. not (workable settings event) in
    All-workable settings _ (
      omega (
        arith,
        h,
        count_if-take p limit (engine.oldest_first (filter is_pending rows)),
        order p (filter is_pending rows),
        count_if-filter p is_pending rows,
      ))
