-- ===== src/Fleet/Thresholds.antt =====
-- ingest_api/services.py, refresh_fleet_health and upsert_decoy: health over time, and what a report
-- that lacks metadata leaves.
use unikernal_honeynet.Base.{ℕ, ◌≤◌, true, Option, none, some, ◌≡◌, refl, arith, truthy}
use unikernal_honeynet.Schemas.{IngestEventIn, Settings}
use unikernal_honeynet.Models.{Decoy, Health, healthy, degraded, silent}
use unikernal_honeynet.Session.{Engine}
use unikernal_honeynet.Payload.{normalize_payload}
use unikernal_honeynet.Fleet.Refresh.{health_of}
use unikernal_honeynet.Fleet.Report.{prefer_inventory_value, merged_decoy}

abbrev pub badness : Health → ℕ
badness healthy = 0
badness degraded = 1
badness silent = 2

-- Without a newer heartbeat, health gets no better as time passes, whatever the thresholds are.
pub health_worsens :
    (settings : Settings) (now later : ℕ) (heartbeat : Option ℕ)
    → now ≤ later
    → badness (health_of settings now heartbeat) ≤ badness (health_of settings later heartbeat)
unfolding health_of
health_worsens settings now later none h = omega arith
health_worsens settings now later (some t) h = ground (arith, h)

-- An event that has no edge node, version, site, environment, role and endpoint leaves those of its
-- decoy as they are, where the decoy's texts are not empty.
pub quiet_report :
    (settings : Settings) (engine : Engine) (k : ℕ) (payload : IngestEventIn) (row : Decoy)
    → payload.edge_node_id ≡ none
    → payload.decoy_version ≡ none
    → payload.site ≡ none
    → payload.environment ≡ none
    → payload.coverage_role ≡ none
    → payload.public_endpoint ≡ none
    → truthy row.edge_node_id ≡ true
    → truthy row.decoy_version ≡ true
    → truthy row.site ≡ true
    → truthy row.environment ≡ true
    → truthy row.coverage_role ≡ true
    → let merged = merged_decoy engine (normalize_payload settings engine k payload) row in
      (merged.edge_node_id ≡ row.edge_node_id)
      × (merged.decoy_version ≡ row.decoy_version)
      × (merged.site ≡ row.site)
      × (merged.environment ≡ row.environment)
      × (merged.coverage_role ≡ row.coverage_role)
      × (merged.public_endpoint ≡ row.public_endpoint)
unfolding merged_decoy normalize_payload prefer_inventory_value
quiet_report settings engine k payload row a b c d e f p q r s t =
    (rw (a, p) refl, rw (b, q) refl, rw (c, r) refl, rw (d, s) refl, rw (e, t) refl, rw f refl)
