-- ===== src/Tests/Sent.antt =====
-- The container decoy, the rankings, the fleet's list and the dashboard's report at concrete inputs
-- (container-baseline/app.py, ingest_api/services.py and main.py, dashboard/report.py).
use Prim.Native.String.{compare}
use unikernal_honeynet.Base.{
  map, compare_flip, IsOrdered, ℕ, min, String, true, ◌||◌, not, List, [], ◌∷◌, ◌++◌, Option, none,
  some, ◌≡◌, ◌≢◌, ◌↔◌, ◌⊎◌, refl, All, elem, any, contains, length, count_if, str_eq, lower, join,
  ◌<>◌,
}
use unikernal_honeynet.Models.{Deployment}
use unikernal_honeynet.Session.Total.{Runs}
use unikernal_honeynet.Session.Keys.{has_key}
use unikernal_honeynet.Samples.{sample_settings, sample_engine, sample_db}
use unikernal_honeynet.Baseline.{
  Environ, Request, build_event, haystack_of, chunks_of, suspicious_markers, is_known,
  detect_suspicious, with_path_tags, tags_in,
}
use unikernal_honeynet.Baseline.Pages.{login}
use unikernal_honeynet.Baseline.Distinct.{AreDistinct}
use unikernal_honeynet.Baseline.Reports.{marked_as, path_tag, build_event_tags}
use unikernal_honeynet.Baseline.Received.{IsLogin, login_reported}
use unikernal_honeynet.Ranking.{top_counts}
use unikernal_honeynet.Ranking.Counted.{hits}
use unikernal_honeynet.Ranking.Top.{IsRanked, top_counts_lem}
use unikernal_honeynet.Fleet.Rows.{decoy_key}
use unikernal_honeynet.Fleet.Step.{FleetStep}
use unikernal_honeynet.Fleet.Valid.{IsListed}
use unikernal_honeynet.Posture.{is_above}
use unikernal_honeynet.Routes.{list_fleet}
use unikernal_honeynet.Routes.Fleet.{has_decoy, list_fleet-Runs}
use unikernal_honeynet.Dashboard.{
  Paths, auto, sqlite, unavailable, exported, main, choose_default_output, wrote, wrote_legacy,
  load_summary_from_sqlite, CollectedEvent,
}
use unikernal_honeynet.Dashboard.Sources.{main_sources}

abbrev no_environ : Environ
no_environ name = none

abbrev traversal : Request
traversal = record {
  method = "POST";
  query_string = "file=../../etc/passwd";
  body_text = "";
  form_username = some "root";
  form_password = some "toor";
  forwarded_for = some "203.0.113.9, 10.0.0.1";
  remote_addr = none;
  user_agent = none;
}

build_event_tags_example :
    let report =
      build_event no_environ "2026-01-01T00:00:00Z" traversal "POST" "/login" "root" "toor" in
    let haystack = haystack_of (chunks_of traversal "/login" "root" "toor") in
    AreDistinct report.tags
    × ((t : String)
        → elem t report.tags
          ≡ (marked_as t haystack suspicious_markers || path_tag t "POST" "/login"))
    × (report.suspicious ≡ (
        any (λ (m : String × String). contains m.0 haystack) suspicious_markers
        || not (is_known "/login")))
build_event_tags_example =
    build_event_tags no_environ "2026-01-01T00:00:00Z" traversal "POST" "/login" "root" "toor"

sent_tags : List String
sent_tags =
    (build_event no_environ "2026-01-01T00:00:00Z" traversal "POST" "/login" "root" "toor").tags

sent_tags_test : sent_tags ≡ "traversal_probe" ∷ "login_attempt" ∷ "credential_guess" ∷ []
unfolding sent_tags build_event detect_suspicious with_path_tags haystack_of tags_in contains lower
    join ◌<>◌
sent_tags_test = refl

login_reported_example :
    IsLogin traversal
      (some (record { instant = 5; zoned = true }))
      (login no_environ "2026-01-01T00:00:00Z" traversal)
login_reported_example =
    login_reported no_environ "2026-01-01T00:00:00Z" traversal
      (some (record { instant = 5; zoned = true })) refl

abbrev sources : List String
sources = "b" ∷ "a" ∷ "c" ∷ "b" ∷ []

top_counts_lem_example :
    let top = top_counts 2 sources in
    (rest : List (String × ℕ)) × IsRanked (top ++ rest)
    × (length top ≡ min 2 (length (top ++ rest)))
    × ((t : String) → hits t (top ++ rest) ≡ count_if (λ key. str_eq key t) sources)
    × All (λ (e : String × ℕ). e.1 ≡ count_if (λ key. str_eq key e.0) sources) top
top_counts_lem_example = top_counts_lem 2 sources

top_counts_test : top_counts 2 sources ≡ ("b", 2) ∷ ("a", 1) ∷ []
unfolding top_counts
top_counts_test = refl

abbrev no_deployment : List Deployment → Option Deployment
no_deployment rows = none

list_fleet-Runs_example :
    Runs (list_fleet compare sample_settings sample_engine no_deployment) sample_db (λ outs d.
      FleetStep sample_db d
      × ((k : String) → has_decoy k outs ≡ has_key decoy_key k d.decoys)
      × ((k : String) → has_key decoy_key k sample_db.decoys ≡ true → has_decoy k outs ≡ true)
      × All (λ expected. IsListed expected d) sample_settings.expected_fleet
      × IsOrdered (is_above compare) (map (λ out. out.decoy) outs))
list_fleet-Runs_example =
    list_fleet-Runs compare sample_settings sample_engine no_deployment sample_db compare_flip tt

abbrev flat_paths : Paths
flat_paths = record { suffix = λ path. ".html"; with_suffix = λ path suffix. path }

abbrev login_row : CollectedEvent
login_row = record { src_ip = "203.0.113.9"; path = "/login"; suspicious = 1 }

main_sources_example :
    let target = choose_default_output flat_paths "report.html" "html" in
    let table = login_row ∷ [] in
    (((main flat_paths (λ s. s) auto "html" "report.html" "events.db" unavailable (some table)
          ≡ wrote_legacy target (load_summary_from_sqlite (λ s. s) "events.db" table))
        ↔ ((◌≡◌ {A = String} "html" "html")
            × ((auto ≡ sqlite) ⊎ ((auto ≡ auto) × (unavailable ≡ unavailable)))))
      × ((main flat_paths (λ s. s) auto "html" "report.html" "events.db" unavailable (some table)
            ≡ wrote target "csv")
          ↔ ((auto ≢ sqlite) × (unavailable ≡ exported "csv")))
      × ((main flat_paths (λ s. s) auto "html" "report.html" "events.db" unavailable none
            ≡ wrote target "csv")
          ↔ ((auto ≢ sqlite) × (unavailable ≡ exported "csv")))
      × (main flat_paths (λ s. s) auto "html" "report.html" "events.db" unavailable none
          ≢ wrote_legacy target (load_summary_from_sqlite (λ s. s) "events.db" table)))
main_sources_example =
    main_sources flat_paths (λ s. s) auto "html" "report.html" "events.db" unavailable
      (login_row ∷ []) "csv"
