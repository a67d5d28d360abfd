-- ===== src/Dashboard.antt =====
-- dashboard/report.py: a report file from the ingest API, and from the collector's SQLite table where
-- that fails.
pub mod Live
pub mod Sources
use unikernal_honeynet.Base.{
  ℕ, String, Bool, true, false, ◌&&◌, List, [], ◌∷◌, Option, none, some, str_eq, if◌then◌else◌,
  ◌==◌, length, map, filter, count_if, sorted_set, lower, ◌<>◌, str,
}

-- A row of the collector's table `events`.
pub record CollectedEvent : Type 0 where
  pub src_ip : String
  pub path : String
  pub suspicious : ℕ

pub record Summary : Type 0 where
  pub source : String
  pub total_events : ℕ
  pub suspicious_events : ℕ
  pub unique_ips : ℕ
  pub credential_attempts : ℕ

-- TRIM(text) <> '' : some character is no space. `trim` is SQLite's.
unfoldable pub load_summary_from_sqlite : (String → String) → String → List CollectedEvent → Summary
load_summary_from_sqlite trim source rows = record {
  source = source;
  total_events = length rows;
  suspicious_events = count_if (λ row. row.suspicious == 1) rows;
  unique_ips = length (
      sorted_set (
        map (λ row. row.src_ip)
          (filter (λ row. if str_eq (trim row.src_ip) "" then false else true) rows)));
  credential_attempts = count_if (λ row. str_eq row.path "/login") rows;
}

-- What pathlib makes of a path: its suffix, and the path with another suffix.
pub record Paths : Type 0 where
  pub suffix : String → String
  pub with_suffix : String → String → String

unfoldable pub choose_default_output : Paths → String → String → String
choose_default_output paths output fmt =
    if str_eq (lower (paths.suffix output)) ("." <> fmt)
    then output
    else paths.with_suffix output ("." <> fmt)

pub data Mode : Type 0 where
  api sqlite auto : Mode

-- How the three requests to the API end: with the exported bytes, with those and a posture that lacks
-- a key that is printed after the file is written, with an exception that is caught (those of
-- urllib, a timeout, a missing key, no JSON), or with another one.
pub data Fetched : Type 0 where
  exported : (payload : String) → Fetched
  exported_unprinted : (payload : String) → Fetched
  unavailable : Fetched
  crashed : Fetched

-- How `main` ends: a file of exported bytes or of the legacy page is written, or it exits with a
-- message or an exception; or a file of exported bytes is written, and then it ends another way.
pub data Ended : Type 0 where
  wrote : (output payload : String) → Ended
  wrote_legacy : (output : String) → Summary → Ended
  wrote_then : (output payload : String) → Ended → Ended
  api_export_failed : Ended
  only_html : Ended
  no_database : Ended
  exception : Ended

-- What `main` finds: the table of the database file, none if there is no file.
unfoldable pub fall_back :
    (String → String) → String → String → Option (List CollectedEvent) → String → Ended
fall_back trim output source rows fmt =
    if str_eq fmt "html"
    then elim rows [
      | none ↦ no_database
      | some table ↦ wrote_legacy output (load_summary_from_sqlite trim source table)
    ]
    else only_html

unfoldable pub from_api : Mode → Fetched → String → Ended → Ended
from_api mode (exported payload) output fallback = wrote output payload
from_api api (exported_unprinted payload) output fallback =
    wrote_then output payload api_export_failed
from_api sqlite (exported_unprinted payload) output fallback = wrote_then output payload fallback
from_api auto (exported_unprinted payload) output fallback = wrote_then output payload fallback
from_api api unavailable output fallback = api_export_failed
from_api sqlite unavailable output fallback = fallback
from_api auto unavailable output fallback = fallback
from_api mode crashed output fallback = exception

abbrev pub uses_api : Mode → Bool
uses_api sqlite = false
uses_api _ = true

-- `main`, with its arguments --mode, --format, --output and --db.
unfoldable pub main :
    Paths
    → (String → String)
    → Mode
    → String
    → String
    → String
    → Fetched
    → Option (List CollectedEvent)
    → Ended
unfolding fall_back from_api
main paths trim mode fmt output source fetched rows =
    let target = choose_default_output paths output fmt in
    let fallback = fall_back trim target source rows fmt in
    if uses_api mode then from_api mode fetched target fallback else fallback
