-- ===== src/Detections/Stats.antt =====
-- `_update_investigation_stats` of ingest_api/services.py: the numbers of an investigation.
use unikernal_honeynet.Base.{
  ℕ, suc, ◌≤◌, String, List, [], ◌∷◌, map, ◌≡◌, refl, ap, arith, length, length-filter-le, filter,
  length-sorted_set, truthy, leb, if◌then◌else◌,
}
use unikernal_honeynet.Models.{Event, Detection, Investigation}
use unikernal_honeynet.Detections.Rules.{Emission}
use unikernal_honeynet.Detections.Record.{
  activity_class, spread_of, with_stats, new_detection, repeated_detection,
}

length-map : (f : Detection → String) (rows : List Detection) → length (map f rows) ≡ length rows
length-map f [] = refl
length-map f (x ∷ xs) = ap suc (length-map f xs)

spread-le : (rows : List Detection) → spread_of rows ≤ length rows
unfolding spread_of
spread-le rows = ground (
  arith,
  length-sorted_set (filter truthy (map (λ row. row.decoy_id) rows)),
  length-filter-le truthy (map (λ row. row.decoy_id) rows),
  length-map (λ row. row.decoy_id) rows,
)

-- An investigation never has more decoys than detections, and so its class depends on its decoys
-- alone: three make it targeted, two opportunistic.
pub class_by_spread :
    (rows : List Detection) (row : Investigation)
    → let stats = with_stats rows row in
      (stats.decoy_spread ≤ stats.detection_count)
      × (stats.activity_class ≡ (
          if leb 3 stats.decoy_spread
          then "targeted"
          else if leb 2 stats.decoy_spread
          then "opportunistic"
          else "unknown"))
unfolding with_stats activity_class
class_by_spread rows row = (spread-le rows, ground (arith, spread-le rows))

-- An event of the source "unknown" gives a new detection no target to block; when it repeats the
-- detection, "unknown" becomes one.
pub unknown_target :
    (id investigation : ℕ) (event : Event) (fingerprint : String) (e : Emission)
    → event.src_ip ≡ "unknown"
    → let row = new_detection id investigation event fingerprint e in
      (row.recommended_block_targets ≡ [])
      × ((repeated_detection investigation event e row).recommended_block_targets ≡ "unknown" ∷ [])
unfolding new_detection repeated_detection
unknown_target id investigation event fingerprint e h = (rw h refl, rw h refl)
