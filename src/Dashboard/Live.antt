-- ===== src/Dashboard/Live.antt =====
-- dashboard/dashboard.py, build_summary: the numbers of the live page, without its list of decoys
-- (by_decoy).
use unikernal_honeynet.Base.{
  ℕ, String, List, [], ◌∷◌, Option, str_eq, leb, if◌then◌else◌, ◌==◌, length, map, filter, take,
  count_if, sorted_set, truthy, get_or,
}
use unikernal_honeynet.Ranking.{top_counts}

-- The columns of the collector's table that the page reads.
pub record Row : Type 0 where
  pub id : ℕ
  pub ts : String
  pub decoy_id : String
  pub src_ip : String
  pub path : String
  pub suspicious : ℕ
  pub tags : Option String

pub record RecentRow : Type 0 where
  pub ts : String
  pub decoy_id : String
  pub src_ip : String
  pub path : String
  pub tags : List String

pub record LiveSummary : Type 0 where
  pub total_events : ℕ
  pub suspicious_events : ℕ
  pub unique_ips : ℕ
  pub login_attempts : ℕ
  pub top_paths : List (String × ℕ)
  pub recent_suspicious : List RecentRow

-- ORDER BY id DESC
unfoldable pub put_by_id : Row → List Row → List Row
put_by_id row [] = row ∷ []
put_by_id row (other ∷ rest) =
    if leb other.id row.id then row ∷ other ∷ rest else other ∷ put_by_id row rest

unfoldable pub by_id_desc : List Row → List Row
unfolding put_by_id
by_id_desc [] = []
by_id_desc (row ∷ rows) = put_by_id row (by_id_desc rows)

-- `loads` is json.loads, none if the text is no JSON.
unfoldable pub recent_row : (String → Option (List String)) → Row → RecentRow
recent_row loads row = record {
  ts = row.ts;
  decoy_id = row.decoy_id;
  src_ip = row.src_ip;
  path = row.path;
  tags = get_or (loads (if truthy (get_or row.tags "") then get_or row.tags "" else "[]")) [];
}

unfoldable pub build_summary : (String → Option (List String)) → List Row → LiveSummary
unfolding by_id_desc recent_row top_counts
build_summary loads rows = record {
  total_events = length rows;
  suspicious_events = count_if (λ row. row.suspicious == 1) rows;
  unique_ips = length (sorted_set (map (λ row. row.src_ip) rows));
  login_attempts = count_if (λ row. str_eq row.path "/login") rows;
  top_paths = top_counts 10 (map (λ row. row.path) rows);
  recent_suspicious =
      map (recent_row loads) (take 15 (by_id_desc (filter (λ row. row.suspicious == 1) rows)));
}
