-- ===== src/Routes.antt =====
-- ingest_api/main.py, the routes by which analysts read: detections, investigations, the fleet and the
-- block list. A read commits nothing.
pub mod Fleet
use unikernal_honeynet.Base.{
  ℕ, String, Bool, true, false, List, [], ◌∷◌, Option, none, some, str_eq, if◌then◌else◌, ◌==◌, map,
  filter, take,
}
use unikernal_honeynet.Schemas.{Settings, Dict, Value}
use unikernal_honeynet.Models.{Db, Decoy, Deployment, Detection, Investigation, Health}
use unikernal_honeynet.Session.{Exec, pure, ◌>>=◌, ◌>>◌, gets, one, Engine}
use unikernal_honeynet.Fleet.Refresh.{refresh_fleet_health}
use unikernal_honeynet.Posture.{Collation, query_fleet, list_block_targets}

-- GET /api/v1/detections/{detection_id}
unfoldable pub get_detection : ℕ → Exec Detection
get_detection id = do
  rows ← gets (λ db. filter (λ (row : Detection). row.id == id) db.detections)
  one rows

-- GET /api/v1/investigations
unfoldable pub list_investigations :
    (List Investigation → List Investigation) → Db → List Investigation
list_investigations newest_first db = take 200 (newest_first db.investigations)

-- GET /api/v1/investigations/{investigation_id}
unfoldable pub get_investigation : ℕ → Exec Investigation
get_investigation id = do
  rows ← gets (λ db. filter (λ (row : Investigation). row.id == id) db.investigations)
  one rows

-- The row that a foreign key names.
unfoldable pub investigation_of : Option ℕ → List Investigation → Option Investigation
investigation_of none rows = none
investigation_of (some id) [] = none
investigation_of (some id) (row ∷ rows) =
    if row.id == id then some row else investigation_of (some id) rows

-- POST /api/v1/investigations/from-detection/{detection_id}: none is the answer 404.
unfoldable pub investigation_from_detection : ℕ → Exec (Option Investigation)
unfolding investigation_of
investigation_from_detection id = do
  rows ← gets (λ db. filter (λ (row : Detection). row.id == id) db.detections)
  detection ← one rows
  gets (λ db. investigation_of detection.investigation_id db.investigations)

-- GET /api/v1/blocklists
unfoldable pub get_blocklists : Db → List (String × ℕ)
get_blocklists db = list_block_targets db.detections

pub record FleetOut : Type 0 where
  pub decoy : Decoy
  pub runtime_state : String
  pub failure_reason : Option String
  pub relay_health : Option Value
  pub relay_queue_backlog : Option Value

unfoldable pub dict_get : String → Dict → Option Value
dict_get key [] = none
dict_get key ((k, v) ∷ rest) = if str_eq k key then some v else dict_get key rest

-- A row of the fleet with `row.deployments[-1]`, if it has one.
unfoldable pub fleet_out : Decoy → Option Deployment → FleetOut
unfolding dict_get
fleet_out row none = record {
  decoy = row;
  runtime_state = "unknown";
  failure_reason = none;
  relay_health = none;
  relay_queue_backlog = none;
}
fleet_out row (some deployment) = record {
  decoy = row;
  runtime_state = deployment.runtime_state;
  failure_reason = deployment.failure_reason;
  relay_health = dict_get "relay_health" deployment.metadata_json;
  relay_queue_backlog = dict_get "relay_queue_backlog" deployment.metadata_json;
}

-- GET /api/v1/fleet; `last` is the order in which the ORM loads a decoy's deployments.
unfoldable pub list_fleet :
    Collation → Settings → Engine → (List Deployment → Option Deployment) → Exec (List FleetOut)
unfolding fleet_out
list_fleet collate settings engine last = do
  refresh_fleet_health settings engine
  rows ← query_fleet collate settings engine
  gets (λ db.
      map
        (λ row.
          fleet_out row (last (filter (λ (d : Deployment). d.decoy_pk == row.id) db.deployments)))
        rows)

-- GET /api/v1/decoys
unfoldable pub list_decoys_compat :
    Collation → Settings → Engine → (List Deployment → Option Deployment) → Exec (List FleetOut)
list_decoys_compat = list_fleet
