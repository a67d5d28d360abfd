-- ===== src/Tests/Views.antt =====
-- What analysts see (ingest_api/services.py, main.py, security.py), at concrete inputs.
use unikernal_honeynet.Base.{
  String, true, [], ◌∷◌, none, some, ◌≡◌, refl, All, truthy, ◌&&◌, count_if,
}
use unikernal_honeynet.Models.{Db}
use unikernal_honeynet.Session.Total.{Runs}
use unikernal_honeynet.Samples.{sample_settings, sample_engine, login_row, sample_db, bruteforce}
use unikernal_honeynet.Detections.Record.{new_detection}
use unikernal_honeynet.Models.{Db, Detection}
use unikernal_honeynet.Base.{not, str_eq, ◌+◌, List, Option}
use unikernal_honeynet.Posture.{posture_of, is_closed, open_targets, list_block_targets}
use unikernal_honeynet.Posture.Counts.{posture_adds_up, block_targets_count}
use unikernal_honeynet.Ranking.Counted.{hits, IsFalling}
use unikernal_honeynet.Analysts.{Claims, require_analyst_identity}
use unikernal_honeynet.Analysts.Users.{Identified, require_analyst_identity-Runs}
use unikernal_honeynet.Listings.{EventQuery, DetectionQuery, list_events}
use unikernal_honeynet.Listings.Matching.{event_matches, list_events_page}
use unikernal_honeynet.Base.{min, length}

posture_adds_up_example :
    let p = posture_of sample_engine sample_db in
    (p.active_decoys + p.fleet_unhealthy ≡ p.fleet_total)
    × (p.fleet_unhealthy ≡ p.degraded_decoys + p.silent_decoys)
    × (p.critical_detections + p.high_detections + p.medium_detections
        ≡ count_if (λ row. not (is_closed row)) sample_db.detections)
posture_adds_up_example = posture_adds_up sample_engine sample_db

abbrev sample_detections : List Detection
sample_detections = new_detection 5 6 (login_row 1 "e1") "f" bruteforce ∷ []

block_targets_count_example :
    (hits "203.0.113.9" (list_block_targets sample_detections)
      ≡ count_if
          (λ named. truthy named && str_eq named "203.0.113.9")
          (open_targets sample_detections))
    × IsFalling (list_block_targets sample_detections)
block_targets_count_example = block_targets_count "203.0.113.9" sample_detections

abbrev no_oidc : String → Option Claims
no_oidc token = none

require_analyst_identity-Runs_example :
    Runs
      (require_analyst_identity sample_settings no_oidc sample_engine (some "token"))
      sample_db
      (Identified sample_settings no_oidc (some "token") sample_db)
require_analyst_identity-Runs_example =
    require_analyst_identity-Runs sample_settings no_oidc sample_engine (some "token") sample_db tt

abbrev suspicious_logins : EventQuery
suspicious_logins = record {
  suspicious = some true;
  decoy_id = some "decoy-1";
  src_ip = none;
  path = some "";
  limit = 2;
}

list_events_page_example :
    All
      (λ row. event_matches suspicious_logins row ≡ true)
      (list_events (λ xs. xs) suspicious_logins sample_db)
    × (length (list_events (λ xs. xs) suspicious_logins sample_db)
        ≡ min suspicious_logins.limit (count_if (event_matches suspicious_logins) sample_db.events))
list_events_page_example =
    list_events_page (λ xs. xs) suspicious_logins sample_db (λ p xs. refl) (λ xs. refl)

abbrev new_high : DetectionQuery
new_high = record {
  status = "new";
  severity = some "high";
  detection_type = none;
  site = none;
  src_ip = none;
}

abbrev detected_db : Db
detected_db = record sample_db { detections = sample_detections }
