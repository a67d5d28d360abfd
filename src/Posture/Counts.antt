-- ===== src/Posture/Counts.antt =====
-- The numbers of query_posture and list_block_targets (ingest_api/services.py) fit together.
use unikernal_honeynet.Base.{
  ◌+◌, String, ◌||◌, ◌&&◌, not, List, [], ◌∷◌, ◌≡◌, ◌∙◌, arith, str_eq, truthy, length, count_if,
}
use unikernal_honeynet.Models.{Db, Decoy, Detection}
use unikernal_honeynet.Session.{Engine}
use unikernal_honeynet.Posture.{
  is_healthy, is_degraded, is_silent, is_critical, is_high, is_medium, is_closed, open_targets,
  posture_of, list_block_targets,
}
use unikernal_honeynet.Ranking.{counter_of}
use unikernal_honeynet.Ranking.Counted.{
  hits, IsFalling, hits-counter_of, hits-most_common, most_common-IsFalling,
}

health_adds_up :
    (decoys : List Decoy)
    → (count_if (λ row. is_healthy row.health_status) decoys
          + count_if (λ row. is_degraded row.health_status || is_silent row.health_status) decoys
        ≡ length decoys)
      × (count_if (λ row. is_degraded row.health_status || is_silent row.health_status) decoys
          ≡ count_if (λ row. is_degraded row.health_status) decoys
            + count_if (λ row. is_silent row.health_status) decoys)
health_adds_up [] = (omega arith, omega arith)
health_adds_up (row ∷ rows) = ground (arith, health_adds_up rows)

severity_adds_up :
    (rows : List Detection)
    → count_if (λ row. is_critical row.severity && not (is_closed row)) rows
        + count_if (λ row. is_high row.severity && not (is_closed row)) rows
        + count_if (λ row. is_medium row.severity && not (is_closed row)) rows
      ≡ count_if (λ row. not (is_closed row)) rows
severity_adds_up [] = omega arith
severity_adds_up (row ∷ rows) = ground (arith, severity_adds_up rows)

-- The numbers of a posture fit together: healthy and unhealthy decoys are the fleet, the unhealthy are
-- the degraded and the silent, and the three severities are the detections that are not closed.
pub posture_adds_up :
    (engine : Engine) (db : Db)
    → let p = posture_of engine db in
      (p.active_decoys + p.fleet_unhealthy ≡ p.fleet_total)
      × (p.fleet_unhealthy ≡ p.degraded_decoys + p.silent_decoys)
      × (p.critical_detections + p.high_detections + p.medium_detections
          ≡ count_if (λ row. not (is_closed row)) db.detections)
unfolding posture_of
posture_adds_up engine db =
    let h = health_adds_up db.decoys in (h.0, h.1, severity_adds_up db.detections)

-- The block list counts, for each target that is not empty, how often the open detections name it,
-- and lists the higher counts first.
pub block_targets_count :
    (target : String) (rows : List Detection)
    → (hits target (list_block_targets rows)
        ≡ count_if (λ named. truthy named && str_eq named target) (open_targets rows))
      × IsFalling (list_block_targets rows)
unfolding list_block_targets
block_targets_count target rows = (
  hits-most_common target (counter_of (open_targets rows) [])
      ∙ hits-counter_of target (open_targets rows) []
      ∙ omega arith,
  most_common-IsFalling (counter_of (open_targets rows) []),
)
