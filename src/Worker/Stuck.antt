-- ===== src/Worker/Stuck.antt =====
-- A round of ingest_api/worker.py that an event without a window ends.
use unikernal_honeynet.Base.{ℕ, false, List, ◌∷◌, ◌≡◌, refl, ◌∙◌, ap}
use unikernal_honeynet.Schemas.{Settings}
use unikernal_honeynet.Models.{Db, Event}
use unikernal_honeynet.Session.{err, overflow_error, ◌>>=◌, gets, for_each, require, Engine}
use unikernal_honeynet.Detections.Rules.{has_cutoff}
use unikernal_honeynet.Detections.Materialize.{
  process_event, pending_events, materialize_detections,
}
use unikernal_honeynet.Fleet.Step.{HasUnique}
use unikernal_honeynet.Fleet.Valid.{reconcile-Runs, refresh-Runs}
use unikernal_honeynet.Worker.{dies, worker_body, worker_round}

module _ (settings : Settings) (engine : Engine) (event : Event) (rest : List Event)
    (early : has_cutoff event settings.detection_window_minutes ≡ false) where
  process_early : (s : Db) → for_each (event ∷ rest) (process_event settings) s ≡ err overflow_error
  unfolding for_each process_event require ◌>>=◌
  process_early s = rw early refl

  materialize_early :
      (limit : ℕ) (s : Db)
      → HasUnique s
      → pending_events engine limit s.events ≡ event ∷ rest
      → materialize_detections settings engine limit s ≡ err overflow_error
  unfolding materialize_detections ◌>>=◌ gets
  materialize_early limit s u first =
      let a = reconcile-Runs settings engine s u in
      let b = refresh-Runs settings engine a.after a.holds.0.unique in
      let same : pending_events engine limit b.after.events ≡ event ∷ rest =
        ap (pending_events engine limit) (b.holds.events ∙ a.holds.0.events) ∙ first in
      rw a.runs (rw b.runs (rw same (rw (process_early b.after) refl)))

  -- If the first event that waits is from the first minutes of year 1, less than the detection window
  -- after its start, a round of the worker dies with an OverflowError and the database is as before:
  -- the event waits again, first, and nothing behind it is processed. The decoys' ids are unique.
  pub round_dies :
      (s : Db)
      → HasUnique s
      → pending_events engine 500 s.events ≡ event ∷ rest
      → worker_round settings engine s ≡ (dies overflow_error, s)
  unfolding worker_round worker_body ◌>>=◌
  round_dies s u first =
      let a = reconcile-Runs settings engine s u in
      let b = refresh-Runs settings engine a.after a.holds.0.unique in
      let same : pending_events engine 500 b.after.events ≡ event ∷ rest =
        ap (pending_events engine 500) (b.holds.events ∙ a.holds.0.events) ∙ first in
      rw a.runs (rw b.runs (rw (materialize_early 500 b.after b.holds.unique same) refl))
