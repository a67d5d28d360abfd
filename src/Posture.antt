-- ===== src/Posture.antt =====
-- ingest_api/services.py, query_fleet, query_posture and list_block_targets: what analysts see.
pub mod Counts
pub mod Overview
use Prim.Native.Nat.{Ordering}
use unikernal_honeynet.Base.{
  order_by, ℕ, suc, ◌+◌, ◌*◌, String, Bool, true, false, ◌||◌, ◌&&◌, not, List, [], ◌∷◌, ◌++◌,
  Option, none, some, str_eq, ltb, leb, if◌then◌else◌, truthy, length, filter, count_if, map,
  sorted_set, take,
}
use unikernal_honeynet.Schemas.{Settings}
use unikernal_honeynet.Models.{
  Db, Decoy, Detection, Event, CredentialAttempt, Health, healthy, degraded, silent, Level, medium,
  high, critical,
}
use unikernal_honeynet.Session.{Exec, pure, ◌>>=◌, ◌>>◌, gets, Engine}
use unikernal_honeynet.Fleet.Inventory.{reconcile_expected_fleet}
use unikernal_honeynet.Fleet.Refresh.{refresh_fleet_health}
use unikernal_honeynet.Api.{has_text}
use unikernal_honeynet.Ranking.{counter_of, most_common, top_counts}

abbrev pub is_healthy : Health → Bool
is_healthy healthy = true
is_healthy _ = false

abbrev pub is_degraded : Health → Bool
is_degraded degraded = true
is_degraded _ = false

abbrev pub is_silent : Health → Bool
is_silent silent = true
is_silent _ = false

abbrev pub is_critical : Level → Bool
is_critical critical = true
is_critical _ = false

abbrev pub is_high : Level → Bool
is_high high = true
is_high _ = false

abbrev pub is_medium : Level → Bool
is_medium medium = true
is_medium _ = false

abbrev pub is_closed : Detection → Bool
is_closed row = str_eq row.status "closed"

abbrev pub is_open : Detection → Bool
is_open row =
    str_eq row.status "new" || (str_eq row.status "triaging" || str_eq row.status "confirmed")

-- The targets of the open detections, one after the other.
unfoldable pub open_targets : List Detection → List String
open_targets [] = []
open_targets (row ∷ rows) =
    let rest = open_targets rows in
    if is_open row then row.recommended_block_targets ++ rest else rest

pub record Posture : Type 0 where
  pub detections_new : ℕ
  pub detections_in_triage : ℕ
  pub fleet_total : ℕ
  pub fleet_unhealthy : ℕ
  pub coverage_gaps : List String
  pub recommended_blocks : List String
  pub exposed_endpoints : ℕ
  pub critical_detections : ℕ
  pub high_detections : ℕ
  pub medium_detections : ℕ
  pub active_decoys : ℕ
  pub silent_decoys : ℕ
  pub degraded_decoys : ℕ
  pub recent_events : ℕ
  pub recent_detections : ℕ
  pub recent_credentials : ℕ
  pub top_sources : List (String × ℕ)
  pub recent_detection_rows : List Detection

-- The time is at or after the cutoff, a day ago.
abbrev pub within_day : Engine → ℕ → Bool
within_day engine t = leb engine.now (t + 24 * 3600 * 1_000_000)

unfoldable pub posture_of : Engine → Db → Posture
unfolding open_targets top_counts
posture_of engine db = record {
  detections_new = count_if (λ row. str_eq row.status "new") db.detections;
  detections_in_triage = count_if (λ row. str_eq row.status "triaging") db.detections;
  fleet_total = length db.decoys;
  fleet_unhealthy =
      count_if (λ row. is_degraded row.health_status || is_silent row.health_status) db.decoys;
  coverage_gaps =
      sorted_set (map (λ row. row.site) (filter (λ row. is_silent row.health_status) db.decoys));
  recommended_blocks = sorted_set (open_targets db.detections);
  exposed_endpoints = count_if (λ row. has_text row.public_endpoint) db.decoys;
  critical_detections =
      count_if (λ row. is_critical row.severity && not (is_closed row)) db.detections;
  high_detections = count_if (λ row. is_high row.severity && not (is_closed row)) db.detections;
  medium_detections = count_if (λ row. is_medium row.severity && not (is_closed row)) db.detections;
  active_decoys = count_if (λ row. is_healthy row.health_status) db.decoys;
  silent_decoys = count_if (λ row. is_silent row.health_status) db.decoys;
  degraded_decoys = count_if (λ row. is_degraded row.health_status) db.decoys;
  recent_events = count_if (λ row. within_day engine row.occurred_at) db.events;
  recent_detections = count_if (λ row. within_day engine row.last_seen_at) db.detections;
  recent_credentials = count_if (λ row. within_day engine row.attempted_at) db.credentials;
  top_sources = top_counts 6 (map (λ row. row.src_ip) db.events);
  recent_detection_rows = take 8 (engine.newest_detections db.detections);
}

unfoldable pub query_posture : Settings → Engine → Exec Posture
query_posture settings engine = do
  reconcile_expected_fleet settings engine
  refresh_fleet_health settings engine
  gets (posture_of engine)

-- How the database orders two texts.
abbrev pub Collation : Type 0
Collation = String → String → Ordering

unfoldable pub health_text : Health → String
health_text healthy = "healthy"
health_text degraded = "degraded"
health_text silent = "silent"

-- The texts by which `query_fleet` orders its rows, the first that differs deciding.
abbrev pub fleet_order : Decoy → String × String × String
fleet_order row = (health_text row.health_status, row.site, row.decoy_id)

unfoldable pub is_above : Collation → Decoy → Decoy → Bool
unfolding health_text
is_above collate a b = elim (collate (fleet_order a).0 (fleet_order b).0) [
  | Ordering.lt ↦ false
  | Ordering.gt ↦ true
  | Ordering.eq ↦ elim (collate (fleet_order a).1 (fleet_order b).1) [
    | Ordering.lt ↦ false
    | Ordering.gt ↦ true
    | Ordering.eq ↦ elim (collate (fleet_order a).2 (fleet_order b).2) [
      | Ordering.gt ↦ true
      | _ ↦ false
    ]
  ]
]

unfoldable pub query_fleet : Collation → Settings → Engine → Exec (List Decoy)
query_fleet collate settings engine = do
  reconcile_expected_fleet settings engine
  refresh_fleet_health settings engine
  gets (λ db. order_by (is_above collate) db.decoys)

unfoldable pub list_block_targets : List Detection → List (String × ℕ)
unfolding counter_of most_common open_targets
list_block_targets rows = most_common (counter_of (open_targets rows) [])
