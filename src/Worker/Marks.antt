-- ===== src/Worker/Marks.antt =====
-- materialize_detections of ingest_api/services.py marks the events that it takes, and no others.
use unikernal_honeynet.Base.{
  ℕ, ◌+◌, ◌≤◌, true, ◌&&◌, not, List, [], ◌∷◌, ◌≡◌, refl, ◌∙◌, sym, ap, subst, arith, ◌==◌,
  if◌then◌else◌, length, count_if, All,
}
use unikernal_honeynet.Schemas.{Settings}
use unikernal_honeynet.Models.{Db, Event}
use unikernal_honeynet.Session.{Engine, for_each, update_where}
use unikernal_honeynet.Session.Total.{
  Runs, Runs-pure, Runs-bind, Runs-weaken, Runs-modify, gets_then, require_then,
}
use unikernal_honeynet.Session.Keys.{IsUnique}
use unikernal_honeynet.Fleet.Rows.{decoy_key}
use unikernal_honeynet.Detections.Materialize.{
  mark_processed, process_event, pending_events, materialize_detections,
}
use unikernal_honeynet.Detections.Kept.{Filed}
use unikernal_honeynet.Detections.Processed.{record-All-Runs}
use unikernal_honeynet.Detections.Workable.{
  workable, workable-IsWorkable, unworkable, unworkable-mark,
}
use unikernal_honeynet.Fleet.Step.{FleetStep, HasUnique}
use unikernal_honeynet.Fleet.Valid.{reconcile-Runs, refresh-Runs}

-- The events after those of a list are marked.
abbrev pub marked : List Event → List Event → List Event
marked [] rows = rows
marked (x ∷ xs) rows = marked xs (
    update_where (λ (row : Event). row.id == x.id)
      (λ (row : Event). record row { alert_processed = true }) rows)

abbrev pub count_id : ℕ → List Event → ℕ
count_id k = count_if λ (row : Event). row.id == k

abbrev pub count_waiting : ℕ → List Event → ℕ
count_waiting k = count_if λ (row : Event). row.id == k && not row.alert_processed

abbrev pub waiting : List Event → ℕ
waiting = count_if λ (row : Event). not row.alert_processed

abbrev mark_one : ℕ → List Event → List Event
mark_one id =
    update_where (λ (row : Event). row.id == id)
      (λ (row : Event). record row { alert_processed = true })

count_id-mark : (k id : ℕ) (rows : List Event) → count_id k (mark_one id rows) ≡ count_id k rows
unfolding update_where
count_id-mark k id [] = refl
count_id-mark k id (row ∷ rows) = ground (arith, count_id-mark k id rows)

waiting-mark :
    (id : ℕ) (rows : List Event) → waiting (mark_one id rows) + count_waiting id rows ≡ waiting rows
unfolding update_where
waiting-mark id [] = refl
waiting-mark id (row ∷ rows) = ground (arith, waiting-mark id rows)

count_waiting-mark :
    (k id : ℕ) (rows : List Event)
    → count_waiting k (mark_one id rows) ≡ (if k == id then 0 else count_waiting k rows)
unfolding update_where
count_waiting-mark k id [] = ground arith
count_waiting-mark k id (row ∷ rows) = ground (arith, count_waiting-mark k id rows)

count_waiting-le : (k : ℕ) (rows : List Event) → count_waiting k rows ≤ count_id k rows
count_waiting-le k [] = omega arith
count_waiting-le k (row ∷ rows) = ground (arith, count_waiting-le k rows)

-- An id is in one row at most.
abbrev pub AreDistinct : List Event → Type 0
AreDistinct rows = (k : ℕ) → count_id k rows ≤ 1

pub marked-AreDistinct : (xs rows : List Event) → AreDistinct rows → AreDistinct (marked xs rows)
marked-AreDistinct [] rows d = d
marked-AreDistinct (x ∷ xs) rows d =
    marked-AreDistinct xs (mark_one x.id rows) λ k. omega (arith, d k, count_id-mark k x.id rows)

-- Marking as many waiting events as the list has leaves that many less.
pub waiting-marked :
    (xs rows : List Event)
    → AreDistinct rows
    → ((k : ℕ) → count_id k xs ≤ count_waiting k rows)
    → waiting (marked xs rows) + length xs ≤ waiting rows
waiting-marked [] rows d h = omega arith
waiting-marked (x ∷ xs) rows d h =
    let rest =
      waiting-marked xs (mark_one x.id rows) (λ k. omega (arith, d k, count_id-mark k x.id rows))
        (λ k. ground (arith, h k, d k, count_waiting-mark k x.id rows, count_waiting-le k rows)) in
    ground (arith, rest, waiting-mark x.id rows, h x.id)

-- Marking events leaves it as it is which of them can be worked on.
pub unworkable-marked :
    (settings : Settings) (xs rows : List Event)
    → unworkable settings (marked xs rows) ≡ unworkable settings rows
unworkable-marked settings [] rows = refl
unworkable-marked settings (x ∷ xs) rows =
    unworkable-marked settings xs (mark_one x.id rows) ∙ unworkable-mark settings x.id rows

-- Processing an event marks it.
process_event-marks :
    (settings : Settings) (event : Event) (s : Db)
    → workable settings event ≡ true
    → Filed s
    → Runs
        (process_event settings event)
        s
        (λ _ d. Filed d × (d.events ≡ mark_one event.id s.events) × (d.decoys ≡ s.decoys))
unfolding process_event mark_processed
process_event-marks settings event s works v =
    let can = workable-IsWorkable settings event works in
    require_then _ _ can.near (
      require_then _ _ can.wide (
        gets_then _ _ (
          Runs-bind _ _ (record-All-Runs settings event _ s can v) λ _ d r. Runs-modify _ d _ (
            record { investigations = r.0.filed.investigations; detections = r.0.filed.detections },
            ap (mark_one event.id) r.0.events,
            r.0.decoys,
          ))))

process_events-marks :
    (settings : Settings) (xs : List Event) (s : Db)
    → All (λ event. workable settings event ≡ true) xs
    → Filed s
    → Runs
        (for_each xs (process_event settings))
        s
        (λ _ d. Filed d × (d.events ≡ marked xs s.events) × (d.decoys ≡ s.decoys))
unfolding for_each
process_events-marks settings [] s works v = Runs-pure tt s _ (v, refl, refl)
process_events-marks settings (x ∷ xs) s works v =
    Runs-bind _ _ (process_event-marks settings x s works.0 v) λ _ d h.
      Runs-weaken (process_events-marks settings xs d works.1 h.0)
        λ _ e g. (g.0, g.1 ∙ ap (marked xs) h.1, g.2 ∙ h.2)

-- What the fleet's refresh leaves filed.
pub FleetStep-Filed : (s d : Db) → FleetStep s d → Filed s → Filed d
FleetStep-Filed s d step v = record {
  investigations = rw step.investigations v.investigations;
  detections = rw step.detections v.detections;
}

-- A call marks the events that it takes and counts them, and leaves the other events as they are.
pub materialize_detections-marks :
    (settings : Settings) (engine : Engine) (limit : ℕ) (s : Db)
    → HasUnique s
    → Filed s
    → All (λ event. workable settings event ≡ true) (pending_events engine limit s.events)
    → Runs (materialize_detections settings engine limit) s (λ n d.
      Filed d
      × HasUnique d
      × (n ≡ length (pending_events engine limit s.events))
      × (d.events ≡ marked (pending_events engine limit s.events) s.events))
unfolding materialize_detections pending_events
materialize_detections-marks settings engine limit s u v works =
    Runs-bind _ _ (reconcile-Runs settings engine s u) λ _ a ha.
      Runs-bind _ _ (refresh-Runs settings engine a ha.0.unique) λ _ b hb.
        let same : b.events ≡ s.events = hb.events ∙ ha.0.events in
        let filed = FleetStep-Filed a b hb (FleetStep-Filed s a ha.0 v) in
        gets_then _ _ (
          Runs-bind _ _
            (process_events-marks settings (pending_events engine limit b.events) b
              (subst
                (λ rows.
                  All (λ event. workable settings event ≡ true) (pending_events engine limit rows))
                (sym same) works)
              filed)
            λ _ d h. Runs-pure _ d _ (
              h.0,
              subst (IsUnique decoy_key) (sym h.2) hb.unique,
              ap (λ rows. length (pending_events engine limit rows)) same,
              h.1 ∙ ap (λ rows. marked (pending_events engine limit rows) rows) same,
            ))
