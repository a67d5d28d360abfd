-- ===== src/Worker/Backlog.antt =====
-- The rounds of ingest_api/worker.py: the events that wait are processed, 500 at most to a round.
use unikernal_honeynet.Base.{
  ℕ, zero, suc, ◌+◌, ◌*◌, ◌≤◌, min, true, List, [], ◌∷◌, Option, some, ◌≡◌, refl, ◌∙◌, sym, ap,
  subst, arith, ◌==◌, if◌then◌else◌, filter, take, length, length-take, count_if,
}
use unikernal_honeynet.Schemas.{Settings}
use unikernal_honeynet.Models.{Db, Event}
use unikernal_honeynet.Session.{Engine}
use unikernal_honeynet.Session.Total.{Runs, Runs-bind, Runs-weaken}
use unikernal_honeynet.Detections.Materialize.{is_pending, pending_events}
use unikernal_honeynet.Detections.Kept.{Filed}
use unikernal_honeynet.Detections.Workable.{unworkable, IsOrder, pending-workable}
use unikernal_honeynet.Fleet.Step.{HasUnique}
use unikernal_honeynet.Fleet.Valid.{reconcile-Runs, refresh-Runs}
use unikernal_honeynet.Worker.{
  Round, sleeps, dies, sleep_of, go_on, worker_body, worker_round, worker_rounds,
}
use unikernal_honeynet.Worker.Marks.{
  marked, count_id, count_waiting, waiting, AreDistinct, marked-AreDistinct, waiting-marked,
  unworkable-marked, materialize_detections-marks, FleetStep-Filed,
}

-- Decoy ids, fingerprints and events' primary keys are unique, and every event can be worked on.
pub record IsReady (settings : Settings) (db : Db) : Type 0 where
  pub decoys : HasUnique db
  pub filed : Filed db
  pub events : AreDistinct db.events
  pub works : unworkable settings db.events ≡ 0

count_take : (k n : ℕ) (xs : List Event) → count_id k (take n xs) ≤ count_id k xs
count_take k zero xs = omega arith
count_take k (suc n) [] = omega arith
count_take k (suc n) (x ∷ xs) = ground (arith, count_take k n xs)

count_pending :
    (k : ℕ) (rows : List Event) → count_id k (filter is_pending rows) ≡ count_waiting k rows
unfolding is_pending
count_pending k [] = refl
count_pending k (row ∷ rows) = ground (arith, count_pending k rows)

length_pending : (rows : List Event) → count_if (λ _. true) (filter is_pending rows) ≡ waiting rows
unfolding is_pending
length_pending [] = refl
length_pending (row ∷ rows) = ground (arith, length_pending rows)

length_all : (rows : List Event) → count_if (λ _. true) rows ≡ length rows
length_all [] = refl
length_all (row ∷ rows) = omega (arith, length_all rows)

taken :
    (engine : Engine) (n : ℕ) (rows : List Event)
    → IsOrder engine
    → length (pending_events engine n rows) ≡ min n (waiting rows)
unfolding pending_events
taken engine n rows order =
    let xs = engine.oldest_first (filter is_pending rows) in
    length-take n xs
    ∙ ap (min n)
        (sym (length_all xs) ∙ order (λ _. true) (filter is_pending rows) ∙ length_pending rows)

left :
    (engine : Engine) (n : ℕ) (rows : List Event)
    → IsOrder engine
    → AreDistinct rows
    → waiting (marked (pending_events engine n rows) rows) + min n (waiting rows) ≤ waiting rows
left engine n rows order d =
    let h = waiting-marked (pending_events engine n rows) rows d λ k.
      unfold pending_events in
      omega (
        arith,
        count_take k n (engine.oldest_first (filter is_pending rows)),
        order (λ (row : Event). row.id == k) (filter is_pending rows),
        count_pending k rows,
      ) in
    omega (arith, h, taken engine n rows order)

same_sleep : (w : ℕ) → sleep_of (min 500 w) ≡ sleep_of w
same_sleep zero = refl
same_sleep (suc w) = ground arith

module _ (settings : Settings) where
  -- A round returns, takes as many waiting events as there are up to 500, and sleeps 5 seconds if
  -- there was none, and else 1.
  pub record Worked (engine : Engine) (s : Db) (result : Round × Db) : Type 0 where
    pub seconds : result.0 ≡ sleeps (if waiting s.events == 0 then 5 else 1)
    pub ready : IsReady settings result.1
    pub fewer : waiting result.1.events + min 500 (waiting s.events) ≤ waiting s.events

  body-Runs :
      (engine : Engine) (s : Db)
      → IsReady settings s
      → IsOrder engine
      → Runs (worker_body settings engine) s (λ n d.
        IsReady settings d
        × (n ≡ min 500 (waiting s.events))
        × (waiting d.events + min 500 (waiting s.events) ≤ waiting s.events))
  unfolding worker_body
  body-Runs engine s v order = Runs-bind _ _ (reconcile-Runs settings engine s v.decoys) λ _ a ha.
      Runs-bind _ _ (refresh-Runs settings engine a ha.0.unique) λ _ b hb.
        let same : b.events ≡ s.events = hb.events ∙ ha.0.events in
        let filed = FleetStep-Filed a b hb (FleetStep-Filed s a ha.0 v.filed) in
        let distinct = subst AreDistinct (sym same) v.events in
        Runs-weaken
          (materialize_detections-marks settings engine 500 b hb.unique filed (
            pending-workable settings engine 500 b.events order
              (ap (unworkable settings) same ∙ v.works)))
          λ n d h. (
            record {
              decoys = h.1;
              filed = h.0;
              events =
                  subst AreDistinct (sym h.3)
                    (marked-AreDistinct (pending_events engine 500 b.events) b.events distinct);
              works =
                  ap (unworkable settings) h.3
                  ∙ unworkable-marked settings (pending_events engine 500 b.events) b.events
                  ∙ ap (unworkable settings) same
                  ∙ v.works;
            },
            h.2 ∙ taken engine 500 b.events order ∙ ap (λ rows. min 500 (waiting rows)) same,
            omega (arith, left engine 500 b.events order distinct, ap waiting h.3, ap waiting same),
          )

  pub round-Worked :
      (engine : Engine) (s : Db)
      → IsReady settings s
      → IsOrder engine
      → Worked engine s (worker_round settings engine s)
  unfolding worker_round
  round-Worked engine s v order =
      let r = body-Runs engine s v order in
      rw r.runs (record {
        seconds = rw r.holds.1 (ap sleeps (same_sleep (waiting s.events)));
        ready = r.holds.0;
        fewer = r.holds.2;
      })

  abbrev pub Drained : Option Db → Type 0
  Drained result = (d : Db) × (result ≡ some d) × (waiting d.events ≡ 0) × IsReady settings d

  after_round :
      (engine : Engine) (n : ℕ) (s : Db) (rest : Db → Option Db) (result : Round × Db)
      → Worked engine s result
      → waiting s.events ≤ 500 * suc n
      → ((d : Db) → IsReady settings d → waiting d.events ≤ 500 * n → Drained (rest d))
      → Drained (go_on rest result)
  after_round engine n s rest (sleeps k, d) w h next = next d w.ready (omega (arith, w.fewer, h))
  after_round engine n s rest (dies e, d) w h next = let no = w.seconds in cc

  -- From a database with unique decoy ids, fingerprints and keys of events, whose times have a zone and
  -- whose events each leave room for the windows and have detections with fingerprints that fit their
  -- column, with an order of the database that neither adds nor drops a row, and while no other
  -- process writes, the worker does not die, and as soon as it has made a round for each 500 waiting events, rounded up, none waits.
  pub worker_drains :
      (engines : ℕ → Engine) (n : ℕ) (s : Db)
      → IsReady settings s
      → ((m : ℕ) → IsOrder (engines m))
      → waiting s.events ≤ 500 * n
      → Drained (worker_rounds settings engines n s)
  unfolding worker_rounds
  worker_drains engines zero s v order h = (s, refl, omega arith, v)
  worker_drains engines (suc n) s v order h =
      after_round (engines n) n s (worker_rounds settings engines n) _
        (round-Worked (engines n) s v (order n)) h
        λ d ready few. worker_drains engines n d ready order few
