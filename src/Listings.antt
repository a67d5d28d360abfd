-- ===== src/Listings.antt =====
-- ingest_api/main.py, the lists that analysts ask for: list_events, list_detections, list_alerts_compat,
-- list_credentials and fleet_coverage. `newest_first` is the database's order by time, latest first.
pub mod Matching
use unikernal_honeynet.Base.{
  [], ◌∷◌, ◌++◌, ◌==◌, ℕ, String, Bool, true, false, ◌&&◌, List, Option, none, some, str_eq,
  if◌then◌else◌, truthy, filter, take, map, count_if, sorted_set,
}
use unikernal_honeynet.Schemas.{Settings}
use unikernal_honeynet.Models.{
  Db, Decoy, Event, CredentialAttempt, Detection, Level, medium, high, critical,
}
use unikernal_honeynet.Session.{Exec, pure, ◌>>=◌, Engine}
use unikernal_honeynet.Detections.Rules.{type_name}
use unikernal_honeynet.Posture.{is_healthy, is_degraded, is_silent, Collation, query_fleet}

-- `if value: query = query.filter(column == value)`
unfoldable pub where_text : {A : Type 0} → (A → String) → Option String → List A → List A
where_text column none rows = rows
where_text column (some value) rows =
    if truthy value then filter (λ row. str_eq (column row) value) rows else rows

-- `if value is not None: query = query.filter(column.is_(value))`
unfoldable pub where_flag : {A : Type 0} → (A → Bool) → Option Bool → List A → List A
where_flag column none rows = rows
where_flag column (some true) rows = filter column rows
where_flag column (some false) rows = filter (λ row. if column row then false else true) rows

-- The parameters of a list of events.
pub record EventQuery : Type 0 where
  pub suspicious : Option Bool
  pub decoy_id : Option String
  pub src_ip : Option String
  pub path : Option String
  pub limit : ℕ

unfoldable pub list_events : (List Event → List Event) → EventQuery → Db → List Event
list_events newest_first q db = take q.limit (
    newest_first (
      where_text (λ row. row.path) q.path
        (where_text (λ row. row.src_ip) q.src_ip
          (where_text (λ row. row.decoy_id) q.decoy_id
            (where_flag (λ row. row.suspicious) q.suspicious db.events)))))

unfoldable pub level_name : Level → String
level_name medium = "medium"
level_name high = "high"
level_name critical = "critical"

-- The parameters of a list of detections.
pub record DetectionQuery : Type 0 where
  pub status : String
  pub severity : Option String
  pub detection_type : Option String
  pub site : Option String
  pub src_ip : Option String

unfoldable pub list_detections :
    (List Detection → List Detection) → DetectionQuery → Db → List Detection
list_detections newest_first q db =
    let rows =
      if str_eq q.status "all"
      then db.detections
      else filter (λ row. str_eq row.status q.status) db.detections in
    take 300 (
      newest_first (
        where_text (λ row. row.src_ip) q.src_ip
          (where_text (λ row. row.site) q.site
            (where_text (λ row. type_name row.detection_type) q.detection_type
              (where_text (λ row. level_name row.severity) q.severity rows)))))

unfoldable pub list_alerts_compat : (List Detection → List Detection) → String → Db → List Detection
list_alerts_compat newest_first status db =
    list_detections newest_first
      (record {
        status = status;
        severity = none;
        detection_type = none;
        site = none;
        src_ip = none;
      })
      db

pub record Coverage : Type 0 where
  pub coverage_gaps : List String
  pub healthy : ℕ
  pub degraded : ℕ
  pub silent : ℕ

unfoldable pub coverage_of : List Decoy → Coverage
coverage_of fleet = record {
  coverage_gaps =
      sorted_set (map (λ row. row.site) (filter (λ row. is_silent row.health_status) fleet));
  healthy = count_if (λ row. is_healthy row.health_status) fleet;
  degraded = count_if (λ row. is_degraded row.health_status) fleet;
  silent = count_if (λ row. is_silent row.health_status) fleet;
}

unfoldable pub fleet_coverage : Collation → Settings → Engine → Exec Coverage
fleet_coverage collate settings engine = do
  fleet ← query_fleet collate settings engine
  pure (coverage_of fleet)

pub record CredentialOut : Type 0 where
  pub id : ℕ
  pub attempted_at : ℕ
  pub decoy_id : String
  pub src_ip : String
  pub username : String
  pub password : String
  pub event_id : String

unfoldable pub credential_out : CredentialAttempt → Event → CredentialOut
credential_out credential event = record {
  id = credential.id;
  attempted_at = credential.attempted_at;
  decoy_id = credential.decoy_id;
  src_ip = credential.src_ip;
  username = credential.username;
  password = credential.password;
  event_id = event.event_id;
}

-- The join of the attempts with their events.
unfoldable pub joined : List Event → List CredentialAttempt → List CredentialOut
unfolding credential_out
joined events [] = []
joined events (credential ∷ rest) =
    map (credential_out credential) (filter (λ event. event.id == credential.event_pk) events)
    ++ joined events rest

unfoldable pub list_credentials :
    (List CredentialOut → List CredentialOut) → Db → List CredentialOut
unfolding joined
list_credentials newest_first db = take 200 (newest_first (joined db.events db.credentials))
