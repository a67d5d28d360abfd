-- ===== src/Dashboard/Sources.antt =====
-- The sources of a report of dashboard/report.py.
use unikernal_honeynet.Base.{String, List, none, some, ◌≡◌, ◌↔◌, arith, eq_iff, ◌⊎◌, ◌≢◌}
use unikernal_honeynet.Dashboard.{
  CollectedEvent, load_summary_from_sqlite, Paths, choose_default_output, Mode, api, sqlite, auto,
  Fetched, exported, exported_unprinted, unavailable, crashed, wrote, wrote_legacy, main,
}

-- With a database, the legacy page is all that is written exactly if the format is HTML, and the API
-- was not asked, or was asked in the mode auto and unavailable; without one, it never is. With and
-- without a database, the exported bytes are written, and the report is done, exactly if the API was
-- asked and exported them, and sent a posture that can be printed.
pub main_sources :
    (paths : Paths) (trim : String → String) (mode : Mode) (fmt output source : String)
    (fetched : Fetched) (table : List CollectedEvent) (payload : String)
    → let target = choose_default_output paths output fmt in
      (((main paths trim mode fmt output source fetched (some table)
            ≡ wrote_legacy target (load_summary_from_sqlite trim source table))
          ↔ ((fmt ≡ "html") × ((mode ≡ sqlite) ⊎ ((mode ≡ auto) × (fetched ≡ unavailable)))))
        × ((main paths trim mode fmt output source fetched (some table) ≡ wrote target payload)
            ↔ ((mode ≢ sqlite) × (fetched ≡ exported payload)))
        × ((main paths trim mode fmt output source fetched none ≡ wrote target payload)
            ↔ ((mode ≢ sqlite) × (fetched ≡ exported payload)))
        × ((main paths trim mode fmt output source fetched none
            ≢ wrote_legacy target (load_summary_from_sqlite trim source table))))
unfolding main
main_sources paths trim api fmt output source (exported p) table payload =
    grind (arith, eq_iff fmt "html")
main_sources paths trim api fmt output source (exported_unprinted p) table payload =
    grind (arith, eq_iff fmt "html")
main_sources paths trim api fmt output source unavailable table payload =
    grind (arith, eq_iff fmt "html")
main_sources paths trim api fmt output source crashed table payload =
    grind (arith, eq_iff fmt "html")
main_sources paths trim sqlite fmt output source (exported p) table payload =
    grind (arith, eq_iff fmt "html")
main_sources paths trim sqlite fmt output source (exported_unprinted p) table payload =
    grind (arith, eq_iff fmt "html")
main_sources paths trim sqlite fmt output source unavailable table payload =
    grind (arith, eq_iff fmt "html")
main_sources paths trim sqlite fmt output source crashed table payload =
    grind (arith, eq_iff fmt "html")
main_sources paths trim auto fmt output source (exported p) table payload =
    grind (arith, eq_iff fmt "html")
main_sources paths trim auto fmt output source (exported_unprinted p) table payload =
    grind (arith, eq_iff fmt "html")
main_sources paths trim auto fmt output source unavailable table payload =
    grind (arith, eq_iff fmt "html")
main_sources paths trim auto fmt output source crashed table payload =
    grind (arith, eq_iff fmt "html")
