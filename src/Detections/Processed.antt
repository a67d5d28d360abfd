-- ===== src/Detections/Processed.antt =====
-- The loop of materialize_detections of ingest_api/services.py.
mod Marked
use unikernal_honeynet.Base.{
  ℕ, suc, ◌+◌, ◌≤◌, min, String, Bool, true, false, ◌&&◌, ◌||◌, not, List, [], ◌∷◌, ◌++◌, map,
  Option, ◌≡◌, refl, ◌∙◌, sym, subst, ap, arith, str_eq, eq_iff, ◌==◌, if◌then◌else◌, any, All,
  length, length-take, take, filter, Bool-cases, inl, inr,
}
use unikernal_honeynet.Schemas.{Settings}
use unikernal_honeynet.Models.{Db, Event, DetectionType}
use unikernal_honeynet.Session.{Exec, pure, for_each, update_where, Engine}
use unikernal_honeynet.Session.Total.{
  Runs, Runs-pure, Runs-bind, Runs-weaken, Runs-modify, Runs-for_each, require_then, gets_then,
}
use unikernal_honeynet.Session.Keys.{has_key, IsUnique, IsUnique-update_where}
use unikernal_honeynet.Detections.Rules.{
  Emission, Window, window_of, types_to_emit, type_name, detection_fingerprint,
}
use unikernal_honeynet.Detections.Record.{detection_key, record_detection}
use unikernal_honeynet.Detections.Materialize.{
  first_of_types, mark_processed, process_event, pending_events, materialize_detections,
}
use unikernal_honeynet.Detections.Emitted.{calls_for, times, recorded_once}
use unikernal_honeynet.Detections.Kept.{Filed}
use unikernal_honeynet.Detections.Recorded.{Recorded, record_detection-Runs}
use Marked.{mark, window_of-mark, names_type, settled, settled-mark, settled-marked, has_key-mark}
use unikernal_honeynet.Detections.Workable.{
  workable, IsWorkable, workable-IsWorkable, unworkable, unworkable-mark,
}
use unikernal_honeynet.Ingest.{event_key}
use unikernal_honeynet.Fleet.Step.{FleetStep, HasUnique}
use unikernal_honeynet.Fleet.Valid.{reconcile-Runs, refresh-Runs}

-- The detection of the type is on file for the event.
abbrev pub OnFile : Event → DetectionType → Db → Type 0
OnFile event t d = has_key detection_key (detection_fingerprint event t) d.detections ≡ true

pub record RecordStep (s d : Db) : Type 0 where
  pub filed : Filed d
  pub grows :
      (k : String)
      → has_key detection_key k s.detections ≡ true
      → has_key detection_key k d.detections ≡ true
  pub events : d.events ≡ s.events
  pub decoys : d.decoys ≡ s.decoys
  pub credentials : d.credentials ≡ s.credentials

RecordStep-refl : (s : Db) → Filed s → RecordStep s s
RecordStep-refl s v = record {
  filed = v;
  grows = λ k h. h;
  events = refl;
  decoys = refl;
  credentials = refl;
}

RecordStep-trans : (s d e : Db) → RecordStep s d → RecordStep d e → RecordStep s e
RecordStep-trans s d e p q = record {
  filed = q.filed;
  grows = λ k h. q.grows k (p.grows k h);
  events = q.events ∙ p.events;
  decoys = q.decoys ∙ p.decoys;
  credentials = q.credentials ∙ p.credentials;
}

pub record-All-Runs :
    (settings : Settings) (event : Event) (es : List Emission) (s : Db)
    → IsWorkable settings event
    → Filed s
    → Runs
        (for_each es (record_detection event))
        s
        (λ _ d. RecordStep s d × All (λ e. OnFile event e.detection_type d) es)
record-All-Runs settings event es s w v =
    Runs-for_each Filed RecordStep (λ e d. OnFile event e.detection_type d) RecordStep-refl
      RecordStep-trans (λ _ _ p. p.filed) (λ e s d p h. p.grows _ h) (record_detection event)
      (λ e s v.
        Runs-weaken (record_detection-Runs event e s w.zoned (w.names e.detection_type) v) λ _ d r.
          (
            record {
              filed = r.filed;
              grows = λ k h. r.keys k ∙ ground (arith, h);
              events = r.events;
              decoys = r.decoys;
              credentials = r.credentials;
            },
            r.keys _
                ∙ ground (
                  arith,
                  eq_iff (detection_fingerprint event e.detection_type)
                      (detection_fingerprint event e.detection_type),
                ),
          ))
      es s v

module _ (settings : Settings) where
  -- The event is no longer pending, and each type whose condition it meets is on file.
  abbrev pub IsSettled : Db → Event → Db → Type 0
  IsSettled s event d =
      (settled event.id d.events ≡ true)
      × ((t : DetectionType)
          → calls_for t event (window_of settings s.events event) ≡ true
          → OnFile event t d)

  -- From `s` to `d` events were marked and detections recorded.
  pub record ProcessStep (s d : Db) : Type 0 where
    pub filed : Filed d
    pub grows :
        (k : String)
        → has_key detection_key k s.detections ≡ true
        → has_key detection_key k d.detections ≡ true
    pub settles : (id : ℕ) → settled id s.events ≡ true → settled id d.events ≡ true
    pub window :
        (event : Event) → window_of settings d.events event ≡ window_of settings s.events event
    pub keys : (k : String) → has_key event_key k d.events ≡ has_key event_key k s.events
    pub unique : IsUnique event_key s.events → IsUnique event_key d.events
    pub workables : unworkable settings d.events ≡ unworkable settings s.events
    pub decoys : d.decoys ≡ s.decoys
    pub credentials : d.credentials ≡ s.credentials

  pub ProcessStep-refl : (s : Db) → Filed s → ProcessStep s s
  ProcessStep-refl s v = record {
    filed = v;
    grows = λ k h. h;
    settles = λ id h. h;
    window = λ _. refl;
    keys = λ _. refl;
    unique = λ u. u;
    workables = refl;
    decoys = refl;
    credentials = refl;
  }

  pub ProcessStep-trans : (s d e : Db) → ProcessStep s d → ProcessStep d e → ProcessStep s e
  ProcessStep-trans s d e p q = record {
    filed = q.filed;
    grows = λ k h. q.grows k (p.grows k h);
    settles = λ id h. q.settles id (p.settles id h);
    window = λ event. q.window event ∙ p.window event;
    keys = λ k. q.keys k ∙ p.keys k;
    unique = λ u. q.unique (p.unique u);
    workables = q.workables ∙ p.workables;
    decoys = q.decoys ∙ p.decoys;
    credentials = q.credentials ∙ p.credentials;
  }

  marked-ProcessStep :
      (id : ℕ) (s d : Db) → RecordStep s d → ProcessStep s (record d { events = mark id d.events })
  marked-ProcessStep id s d r = record {
    filed = record { investigations = r.filed.investigations; detections = r.filed.detections };
    grows = r.grows;
    settles = λ i h. settled-mark i id d.events (ap (settled i) r.events ∙ h);
    window = λ event.
        window_of-mark settings event id d.events
        ∙ ap (λ rows. window_of settings rows event) r.events;
    keys = λ k. has_key-mark k id d.events ∙ ap (has_key event_key k) r.events;
    unique = λ u.
        IsUnique-update_where event_key (λ row. row.id == id)
          (λ row. record row { alert_processed = true }) (λ _. refl) d.events
          (subst (IsUnique event_key) (sym r.events) u);
    workables = unworkable-mark settings id d.events ∙ ap (unworkable settings) r.events;
    decoys = r.decoys;
    credentials = r.credentials;
  }

  pub process_event-Runs :
      (event : Event) (s : Db)
      → workable settings event ≡ true
      → Filed s
      → Runs (process_event settings event) s (λ _ d. ProcessStep s d × IsSettled d event d)
  unfolding process_event mark_processed
  process_event-Runs event s works v =
      let can = workable-IsWorkable settings event works in
      let w = window_of settings s.events event in
      let es = first_of_types [] (types_to_emit event w) in
      require_then _ _ can.near (
        require_then _ _ can.wide (
          gets_then _ _ (
            Runs-bind _ _ (record-All-Runs settings event es s can v) λ _ d r.
              let step = marked-ProcessStep event.id s d r.0 in
              Runs-modify _ d _ (
                step,
                (
                  settled-marked event.id d.events,
                  λ t h.
                      let called : calls_for t event w ≡ true =
                        sym (ap (calls_for t event) (step.window event)) ∙ h in
                      names_type (λ u. OnFile event u d) t es
                        (recorded_once t event w ∙ ap (λ b. if b then 1 else 0) called) r.1,
                ),
              ))))

  pub IsSettled-carried :
      (event : Event) (s d : Db) → ProcessStep s d → IsSettled s event s → IsSettled d event d
  IsSettled-carried event s d p h = (
    p.settles event.id h.0,
    λ t called. p.grows _ (h.1 t (ap (calls_for t event) (sym (p.window event)) ∙ called)),
  )
