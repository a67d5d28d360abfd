-- ===== src/Detections/Materialized.antt =====
-- materialize_detections of ingest_api/services.py: every pending event is processed, and every
-- detection that it calls for is on file.
use unikernal_honeynet.Base.{
  ℕ, ◌≤◌, String, true, List, [], ◌∷◌, ◌≡◌, ◌∙◌, sym, subst, ap, arith, All, length, length-take,
  take,
}
use unikernal_honeynet.Schemas.{Settings}
use unikernal_honeynet.Models.{Db, Event}
use unikernal_honeynet.Session.{Engine}
use unikernal_honeynet.Session.Total.{Runs, Runs-pure, Runs-bind, Runs-for_kind, gets_then}
use unikernal_honeynet.Session.Keys.{has_key, IsUnique}
use unikernal_honeynet.Detections.Rules.{window_of}
use unikernal_honeynet.Detections.Record.{detection_key}
use unikernal_honeynet.Detections.Materialize.{
  process_event, pending_events, materialize_detections,
}
use unikernal_honeynet.Detections.Emitted.{calls_for}
use unikernal_honeynet.Detections.Kept.{Filed}
use unikernal_honeynet.Detections.Workable.{workable, unworkable}
use unikernal_honeynet.Ingest.{event_key}
use unikernal_honeynet.Fleet.Step.{HasUnique}
use unikernal_honeynet.Fleet.Valid.{reconcile-Runs, refresh-Runs}
use unikernal_honeynet.Fleet.Rows.{decoy_key}
use unikernal_honeynet.Detections.Processed.{
  IsSettled, ProcessStep, ProcessStep-refl, ProcessStep-trans, process_event-Runs,
  IsSettled-carried,
}

module _ (settings : Settings) where
  -- What a call returns, and how it leaves the database.
  pub record Materialized (limit : ℕ) (pending : List Event) (s : Db) (n : ℕ) (d : Db)
      : Type 0 where
    pub counted : n ≡ length pending
    pub bounded : n ≤ limit
    pub filed : Filed d
    pub grows :
        (k : String)
        → has_key detection_key k s.detections ≡ true
        → has_key detection_key k d.detections ≡ true
    pub keys : (k : String) → has_key event_key k d.events ≡ has_key event_key k s.events
    pub unique : IsUnique event_key s.events → IsUnique event_key d.events
    pub decoys : HasUnique d
    pub credentials : d.credentials ≡ s.credentials
    pub workables : unworkable settings d.events ≡ unworkable settings s.events
    pub settled_all : All (λ event. IsSettled settings s event d) pending

  All-map :
      (P Q : Event → Type 0)
      → ((event : Event) → P event → Q event)
      → (xs : List Event) → All P xs
      → All Q xs
  All-map P Q f [] h = tt
  All-map P Q f (x ∷ xs) h = (f x h.0, All-map P Q f xs h.1)

  take-le : (n : ℕ) (xs : List Event) → length (take n xs) ≤ n
  take-le n xs = omega (arith, length-take n xs)

  Materialized-end :
      (engine : Engine) (limit : ℕ) (s b d : Db)
      → HasUnique b
      → b.events ≡ s.events
      → b.detections ≡ s.detections
      → b.credentials ≡ s.credentials
      → ProcessStep settings b d
        × All (λ event. IsSettled settings d event d) (pending_events engine limit b.events)
      → Materialized limit
          (pending_events engine limit s.events)
          s
          (length (pending_events engine limit b.events))
          d
  unfolding pending_events
  Materialized-end engine limit s b d decoys events rows attempts h =
      let same : pending_events engine limit b.events ≡ pending_events engine limit s.events =
        ap (pending_events engine limit) events in
      record {
        counted = ap length same;
        bounded = take-le limit _;
        filed = h.0.filed;
        grows = λ k known. h.0.grows k (ap (has_key detection_key k) rows ∙ known);
        keys = λ k. h.0.keys k ∙ ap (has_key event_key k) events;
        unique = λ u. h.0.unique (subst (IsUnique event_key) (sym events) u);
        decoys = subst (IsUnique decoy_key) (sym h.0.decoys) decoys;
        credentials = h.0.credentials ∙ attempts;
        workables = h.0.workables ∙ ap (unworkable settings) events;
        settled_all = subst (All (λ event. IsSettled settings s event d)) same (
            All-map (λ event. IsSettled settings d event d) (λ event. IsSettled settings s event d)
              (λ event i. (
                i.0,
                λ t called. i.1 t (
                    ap (calls_for t event)
                      (h.0.window event ∙ ap (λ xs. window_of settings xs event) events)
                    ∙ called),
              ))
              (pending_events engine limit b.events) h.1);
      }

  -- From a database with unique decoy ids, in which the fingerprints of investigations and those of
  -- detections are unique and each investigation's last time has a zone, and if each event that it
  -- takes has a time with a zone and with room for the windows, and its detections' fingerprints fit
  -- their column, a call returns the number of the events that it took, at most its limit,
  -- and raises no error. Each of these events is no longer pending, and every type whose condition
  -- it meets, on the events as they were before the call, has its detection on file. No detection
  -- and no event is lost, credentials are left alone, and what was unique stays so, event ids, too.
  pub materialize_detections-Runs :
      (engine : Engine) (limit : ℕ) (s : Db)
      → HasUnique s
      → Filed s
      → All (λ event. workable settings event ≡ true) (pending_events engine limit s.events)
      → Runs
          (materialize_detections settings engine limit)
          s
          (Materialized limit (pending_events engine limit s.events) s)
  unfolding materialize_detections pending_events
  materialize_detections-Runs engine limit s u v works =
      Runs-bind _ _ (reconcile-Runs settings engine s u) λ _ a ha.
        Runs-bind _ _ (refresh-Runs settings engine a ha.0.unique) λ _ b hb.
          let events : b.events ≡ s.events = hb.events ∙ ha.0.events in
          let rows : b.detections ≡ s.detections = hb.detections ∙ ha.0.detections in
          let filed : Filed b = record {
            investigations = rw (hb.investigations ∙ ha.0.investigations) v.investigations;
            detections = rw rows v.detections;
          } in
          gets_then _ _ (
            Runs-bind _ _
              (Runs-for_kind (λ event. workable settings event ≡ true) Filed (ProcessStep settings)
                (λ event d. IsSettled settings d event d) (ProcessStep-refl settings)
                (ProcessStep-trans settings) (λ _ _ p. p.filed) (IsSettled-carried settings)
                (process_event settings) (process_event-Runs settings)
                (pending_events engine limit b.events) b
                (subst
                  (λ rows.
                    All (λ event. workable settings event ≡ true)
                      (pending_events engine limit rows))
                  (sym events) works)
                filed)
              λ _ d h. Runs-pure _ d _ (
                Materialized-end engine limit s b d hb.unique events rows
                  (hb.credentials ∙ ha.0.credentials) h))
