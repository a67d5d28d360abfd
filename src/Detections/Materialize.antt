-- ===== src/Detections/Materialize.antt =====
-- ingest_api/services.py, materialize_detections: the pending events, oldest first, are turned into
-- detections and marked as processed.
use unikernal_honeynet.Base.{
  ℕ, Bool, true, not, List, [], ◌∷◌, ◌==◌, if◌then◌else◌, filter, length, take, any, str_eq,
}
use unikernal_honeynet.Schemas.{Settings}
use unikernal_honeynet.Models.{Event, DetectionType}
use unikernal_honeynet.Session.{
  Exec, overflow_error, require, pure, ◌>>=◌, ◌>>◌, gets, modify, for_each, update_where, Engine,
}
use unikernal_honeynet.Fleet.Inventory.{reconcile_expected_fleet}
use unikernal_honeynet.Fleet.Refresh.{refresh_fleet_health}
use unikernal_honeynet.Detections.Rules.{Emission, type_name, has_cutoff, window_of, types_to_emit}
use unikernal_honeynet.Detections.Record.{record_detection}

-- The loop over `types_to_emit` with its set `seen_types`: the first entry of each type.
unfoldable pub first_of_types : List DetectionType → List Emission → List Emission
first_of_types seen [] = []
first_of_types seen (e ∷ rest) =
    let again = any (λ t. str_eq (type_name t) (type_name e.detection_type)) seen in
    let skipped = first_of_types seen rest in
    let kept = e ∷ first_of_types (e.detection_type ∷ seen) rest in if again then skipped else kept

unfoldable pub is_pending : Event → Bool
is_pending event = not event.alert_processed

unfoldable pub mark_processed : Event → Exec (Unit {0})
mark_processed event = modify λ db. record db {
  events =
      update_where (λ row. row.id == event.id) (λ row. record row { alert_processed = true })
        db.events;
}

-- The body of the loop over the pending events.
unfoldable pub process_event : Settings → Event → Exec (Unit {0})
unfolding first_of_types
process_event settings event = do
  require (has_cutoff event settings.detection_window_minutes) overflow_error
  require (has_cutoff event settings.distributed_window_minutes) overflow_error
  window ← gets (λ db. window_of settings db.events event)
  for_each (first_of_types [] (types_to_emit event window)) (record_detection event)
  mark_processed event

-- The pending events that a call takes.
unfoldable pub pending_events : Engine → ℕ → List Event → List Event
unfolding is_pending
pending_events engine limit events = take limit (engine.oldest_first (filter is_pending events))

-- The number of events that were processed.
unfoldable pub materialize_detections : Settings → Engine → ℕ → Exec ℕ
materialize_detections settings engine limit = do
  reconcile_expected_fleet settings engine
  refresh_fleet_health settings engine
  pending ← gets (λ db. pending_events engine limit db.events)
  for_each pending (process_event settings)
  pure (length pending)
