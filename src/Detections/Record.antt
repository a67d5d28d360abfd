-- ===== src/Detections/Record.antt =====
-- ingest_api/services.py: `_record_detection`, with the investigation that a detection belongs to.
use unikernal_honeynet.Base.{
  ℕ, ◌+◌, max, String, Bool, false, ◌&&◌, not, List, [], ◌∷◌, ◌++◌, map, Option, none, some,
  is_some, str_eq, ◌==◌, leb, ltb, if◌then◌else◌, filter, length, elem, sorted_set, truthy, or_text,
}
use unikernal_honeynet.Schemas.{Dict}
use unikernal_honeynet.Models.{Event, Investigation, Detection}
use unikernal_honeynet.Session.{
  Exec, data_error, type_error, require, pure, ◌>>=◌, ◌>>◌, gets, modify, one_or_none, update_where,
  insert_unique, fresh_id,
}
use unikernal_honeynet.Columns.{fits}
use unikernal_honeynet.Session.Keys.{with_key}
use unikernal_honeynet.Fleet.Rows.{set_key}
use unikernal_honeynet.Detections.Rules.{detection_rules, Emission, detection_fingerprint}

abbrev pub investigation_key : Investigation → String
investigation_key investigation = investigation.fingerprint

abbrev pub detection_key : Detection → String
detection_key detection = detection.fingerprint

-- `{**old, **new}`
unfoldable pub merge : Dict → Dict → Dict
unfolding set_key
merge old [] = old
merge old ((key, value) ∷ new) = merge (set_key key value old) new

unfoldable pub new_investigation : ℕ → String → Event → Investigation
new_investigation id fingerprint event = record {
  id = id;
  fingerprint = fingerprint;
  first_seen = event.occurred_at;
  last_seen = event.occurred_at;
  detection_count = 0;
  decoy_spread = 1;
  activity_class = "unknown";
  analyst_notes = none;
  status = "open";
  zoned = event.zoned;
}

-- `max` of two times raises TypeError if only one of them has a zone.
unfoldable pub same_zone : Event → Investigation → Bool
same_zone event row = if event.zoned then row.zoned else not row.zoned

unfoldable pub seen_again : Event → Investigation → Investigation
seen_again event row = record row {
  last_seen = if ltb row.last_seen event.occurred_at then event.occurred_at else row.last_seen;
}

unfoldable pub write_investigation : ℕ → (Investigation → Investigation) → Exec (Unit {0})
write_investigation id f =
    modify
      λ db. record db { investigations = update_where (λ row. row.id == id) f db.investigations }

unfoldable pub investigation_found : String → Event → Option Investigation → Exec ℕ
investigation_found fingerprint event none = do
  id ← fresh_id
  rows ← gets (λ db. db.investigations)
  insert_unique investigation_key (new_investigation id fingerprint event) rows
      (λ rows' db. record db { investigations = rows' })
  pure id
investigation_found fingerprint event (some row) = do
  require (same_zone event row) type_error
  write_investigation row.id (seen_again event)
  pure row.id

-- `_ensure_investigation`: the primary key of the investigation.
unfoldable pub ensure_investigation : String → Event → Exec ℕ
ensure_investigation fingerprint event = do
  rows ← gets (λ db. with_key investigation_key fingerprint db.investigations)
  found ← one_or_none rows
  investigation_found fingerprint event found

unfoldable pub activity_class : ℕ → ℕ → String
activity_class spread count =
    if leb 3 spread && leb 3 count
    then "targeted"
    else if leb 2 spread
    then "opportunistic"
    else "unknown"

-- The detections of an investigation, and the decoys that they name.
unfoldable pub linked : ℕ → List Detection → List Detection
linked id = filter (λ row. elim row.investigation_id [ none ↦ false | some i ↦ i == id ])

unfoldable pub spread_of : List Detection → ℕ
spread_of rows =
    let spread = length (sorted_set (filter truthy (map (λ row. row.decoy_id) rows))) in
    max spread (if leb 1 (length rows) then 1 else 0)

unfoldable pub with_stats : List Detection → Investigation → Investigation
unfolding activity_class
with_stats rows row = record row {
  detection_count = length rows;
  decoy_spread = spread_of rows;
  activity_class = activity_class (spread_of rows) (length rows);
}

-- `_update_investigation_stats`
unfoldable pub update_investigation_stats : ℕ → Exec (Unit {0})
update_investigation_stats id = do
  rows ← gets (λ db. linked id db.detections)
  write_investigation id (with_stats rows)

unfoldable pub new_detection : ℕ → ℕ → Event → String → Emission → Detection
unfolding detection_rules
new_detection id investigation_id event fingerprint e =
    let r = detection_rules e.detection_type in
    record {
      id = id;
      fingerprint = fingerprint;
      detection_type = e.detection_type;
      severity = r.severity;
      confidence = r.confidence;
      status = "new";
      title = e.title;
      summary = e.summary;
      recommended_action = r.action;
      recommended_block_targets =
          if truthy event.src_ip && not (str_eq event.src_ip "unknown")
          then event.src_ip ∷ []
          else [];
      assigned_to = none;
      triage_notes = none;
      evidence_summary = e.evidence;
      decoy_pk = event.decoy_pk;
      decoy_id = event.decoy_id;
      site = event.site;
      src_ip = event.src_ip;
      event_pk = event.id;
      investigation_id = some investigation_id;
      occurrences = 1;
      first_seen_at = event.occurred_at;
      last_seen_at = event.occurred_at;
    }

unfoldable pub repeated_detection : ℕ → Event → Emission → Detection → Detection
unfolding merge
repeated_detection investigation_id event e row = record row {
  occurrences = row.occurrences + 1;
  last_seen_at = event.occurred_at;
  evidence_summary = merge row.evidence_summary e.evidence;
  recommended_block_targets =
      if truthy event.src_ip && not (elem event.src_ip row.recommended_block_targets)
      then row.recommended_block_targets ++ event.src_ip ∷ []
      else row.recommended_block_targets;
  investigation_id =
      if is_some row.investigation_id then row.investigation_id else some investigation_id;
}

-- The flush of a new detection refuses a fingerprint that is too long for its column; its other texts
-- are those of a row of `events`, or short.
unfoldable pub detection_found : ℕ → Event → String → Emission → Option Detection → Exec (Unit {0})
detection_found investigation_id event fingerprint e none = do
  require (fits 255 fingerprint) data_error
  id ← fresh_id
  rows ← gets (λ db. db.detections)
  insert_unique detection_key (new_detection id investigation_id event fingerprint e) rows
      (λ rows' db. record db { detections = rows' })
detection_found investigation_id event fingerprint e (some row) = modify λ db. record db {
  detections =
      update_where (λ other. other.id == row.id) (repeated_detection investigation_id event e)
        db.detections;
}

unfoldable pub record_detection : Event → Emission → Exec (Unit {0})
record_detection event e = do
  let fingerprint = detection_fingerprint event e.detection_type
  investigation_id ← ensure_investigation (or_text event.src_ip event.request_fingerprint) event
  rows ← gets (λ db. with_key detection_key fingerprint db.detections)
  found ← one_or_none rows
  detection_found investigation_id event fingerprint e found
  update_investigation_stats investigation_id
