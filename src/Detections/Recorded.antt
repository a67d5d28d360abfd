-- ===== src/Detections/Recorded.antt =====
-- `_record_detection` of ingest_api/services.py, as a whole.
use unikernal_honeynet.Base.{
  ℕ, ◌+◌, String, true, ◌||◌, ◌≡◌, refl, ◌∙◌, sym, subst, ap, str_eq, or_text,
}
use unikernal_honeynet.Models.{Db, Event}
use unikernal_honeynet.Session.{one_or_none}
use unikernal_honeynet.Session.Total.{Runs, Runs-bind, Runs-weaken, gets_then}
use unikernal_honeynet.Session.Keys.{IsUnique, has_key, with_key}
use unikernal_honeynet.Columns.{fits}
use unikernal_honeynet.Detections.Rules.{Emission, detection_fingerprint}
use unikernal_honeynet.Detections.Record.{
  investigation_key, detection_key, with_stats, linked, update_investigation_stats,
  record_detection,
}
use unikernal_honeynet.Detections.Kept.{
  Filed, times_seen, lookup_detection, Counted, with_key-lookup, detection_found-Runs,
}
use unikernal_honeynet.Detections.Investigated.{
  AreFiled, InvestigationStep, write_investigation-Runs, ensure_investigation-Runs,
}

-- What recording a detection with the fingerprint `k`, in the investigation `i`, does.
pub record Recorded (k i : String) (s d : Db) : Type 0 where
  pub filed : Filed d
  pub seen : times_seen k d.detections ≡ times_seen k s.detections + 1
  pub keys :
      (j : String)
      → has_key detection_key j d.detections ≡ (has_key detection_key j s.detections || str_eq k j)
  pub investigated : has_key investigation_key i d.investigations ≡ true
  pub events : d.events ≡ s.events
  pub decoys : d.decoys ≡ s.decoys
  pub credentials : d.credentials ≡ s.credentials

abbrev pub source_of : Event → String
source_of event = or_text event.src_ip event.request_fingerprint

update_stats-Runs :
    (id : ℕ) (s : Db)
    → AreFiled s.investigations
    → Runs (update_investigation_stats id) s (λ _ d. InvestigationStep s d)
unfolding update_investigation_stats with_stats
update_stats-Runs id s u = gets_then _ _ (
    write_investigation-Runs id (with_stats (linked id s.detections)) s (λ row. refl) (λ row. refl)
      u)

count-Runs :
    (id : ℕ) (event : Event) (k : String) (e : Emission) (s : Db)
    → IsUnique detection_key s.detections
    → Runs
        (one_or_none (with_key detection_key k s.detections))
        s
        (λ o d. (d ≡ s) × (o ≡ lookup_detection k s.detections))
count-Runs id event k e s u = record {
  result = lookup_detection k s.detections;
  after = s;
  runs = with_key-lookup k s.detections s u;
  holds = (refl, refl);
}

Recorded-steps :
    (k i : String) (s d e f : Db)
    → Filed s
    → InvestigationStep s d × (has_key investigation_key i d.investigations ≡ true)
    → Counted k d e
    → InvestigationStep e f
    → Recorded k i s f
Recorded-steps k i s d e f v h c g = record {
  filed = record {
    investigations = g.0;
    detections = subst (IsUnique detection_key) (sym g.1) c.0;
  };
  seen = ap (times_seen k) g.1 ∙ c.1 ∙ ap (λ rows. times_seen k rows + 1) h.0.1;
  keys = λ j.
      ap (has_key detection_key j) g.1
      ∙ c.2 j
      ∙ ap (λ rows. has_key detection_key j rows || str_eq k j) h.0.1;
  investigated = g.5 i (ap (has_key investigation_key i) c.3 ∙ h.1);
  events = g.2 ∙ c.4 ∙ h.0.2;
  decoys = g.3 ∙ c.5 ∙ h.0.3;
  credentials = g.4 ∙ c.6 ∙ h.0.4;
}

-- From a database in which the fingerprints of investigations and those of detections are unique and
-- each investigation's last time has a zone, a detection is recorded without an error, if the
-- event's time has a zone and the detection's fingerprint fits its column. The fingerprints stay unique; the detection's fingerprint
-- has occurred once more than before, and no other fingerprint is new or lost; its source has an
-- investigation; events, decoys and credentials are left alone.
pub record_detection-Runs :
    (event : Event) (e : Emission) (s : Db)
    → event.zoned ≡ true
    → fits 255 (detection_fingerprint event e.detection_type) ≡ true
    → Filed s
    → Runs
        (record_detection event e)
        s
        (λ _ d. Recorded (detection_fingerprint event e.detection_type) (source_of event) s d)
unfolding record_detection
record_detection-Runs event e s zone fit v =
    let k = detection_fingerprint event e.detection_type in
    Runs-bind _ _ (ensure_investigation-Runs (source_of event) event s zone v.investigations)
      λ id d h.
        let u : IsUnique detection_key d.detections =
          subst (IsUnique detection_key) (sym h.0.1) v.detections in
        gets_then _ _ (
          Runs-bind _ _ (count-Runs id event k e d u) λ o d' g.
            Runs-bind _ _
              (rw (g.0, g.1)
                (detection_found-Runs id event k e d (lookup_detection k d.detections) u refl fit))
              λ _ f c.
                Runs-weaken (update_stats-Runs id f (subst (AreFiled) (sym c.3) h.0.0))
                  λ _ l r. Recorded-steps k (source_of event) s d f l v h c r)
