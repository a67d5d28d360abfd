-- ===== src/Posture/Overview.antt =====
-- ingest_api/services.py, query_overview, without its list of decoys (events_by_decoy).
use unikernal_honeynet.Base.{
  ℕ, suc, String, ◌+◌, ◌≤◌, Bool, ◌||◌, List, [], ◌∷◌, ◌≡◌, refl, ap, arith, str_eq, eq_iff, length,
  count_if, map, sorted_set, length-sorted_set,
}
use unikernal_honeynet.Schemas.{Settings}
use unikernal_honeynet.Models.{Db, Event, Detection}
use unikernal_honeynet.Session.{Exec, ◌>>=◌, gets, Engine}
use unikernal_honeynet.Ranking.{top_counts}
use unikernal_honeynet.Posture.{Posture, posture_of, query_posture}

pub record Overview : Type 0 where
  pub total_events : ℕ
  pub suspicious_events : ℕ
  pub open_alerts : ℕ
  pub unique_ips : ℕ
  pub credential_attempts : ℕ
  pub active_decoys : ℕ
  pub top_paths : List (String × ℕ)
  pub top_attackers : List (String × ℕ)
  pub recent_alerts : List Detection

unfoldable pub overview_of : Posture → Db → Overview
unfolding top_counts
overview_of posture db = record {
  total_events = length db.events;
  suspicious_events = count_if (λ row. row.suspicious) db.events;
  open_alerts = posture.detections_new + posture.detections_in_triage;
  unique_ips = length (sorted_set (map (λ row. row.src_ip) db.events));
  credential_attempts = length db.credentials;
  active_decoys = posture.active_decoys;
  top_paths = top_counts 8 (map (λ row. row.path) db.events);
  top_attackers = posture.top_sources;
  recent_alerts = posture.recent_detection_rows;
}

unfoldable pub query_overview : Settings → Engine → Exec Overview
query_overview settings engine = do
  posture ← query_posture settings engine
  gets (overview_of posture)

module _ {A : Type 0} where
  length-map : {B : Type 0} (f : A → B) (rows : List A) → length (map f rows) ≡ length rows
  length-map f [] = refl
  length-map f (row ∷ rows) = ap suc (length-map f rows)

  count_if-le : (p : A → Bool) (rows : List A) → count_if p rows ≤ length rows
  count_if-le p [] = omega arith
  count_if-le p (row ∷ rows) = ground (arith, count_if-le p rows)

new_or_triaging :
    (rows : List Detection)
    → count_if (λ row. str_eq row.status "new") rows
        + count_if (λ row. str_eq row.status "triaging") rows
      ≡ count_if (λ row. str_eq row.status "new" || str_eq row.status "triaging") rows
new_or_triaging [] = omega arith
new_or_triaging (row ∷ rows) = ground (
  arith,
  new_or_triaging rows,
  eq_iff row.status "new",
  eq_iff row.status "triaging",
  eq_iff "new" "triaging",
)

-- The totals of an overview are within their tables: no more suspicious events and no more sources
-- than events, and as many open alerts as detections that are new or in triage.
pub overview_bounds :
    (engine : Engine) (db : Db)
    → let o = overview_of (posture_of engine db) db in
      (o.suspicious_events ≤ o.total_events)
      × (o.unique_ips ≤ o.total_events)
      × (o.open_alerts
          ≡ count_if (λ row. str_eq row.status "new" || str_eq row.status "triaging") db.detections)
unfolding overview_of posture_of
overview_bounds engine db = (
  count_if-le (λ row. row.suspicious) db.events,
  omega (
    arith,
    length-sorted_set (map (λ (row : Event). row.src_ip) db.events),
    length-map (λ (row : Event). row.src_ip) db.events,
  ),
  new_or_triaging db.detections,
)
