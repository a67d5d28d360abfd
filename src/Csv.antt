-- ===== src/Csv.antt =====
-- ingest_api/schemas.py, render_csv: the rows of a report as the `csv` module writes them (its excel
-- dialect), and the rows of POST /api/v1/reports/export.
pub mod Reader
use Prim.Native.Char.{Char, code}
use Prim.Native.String
use unikernal_honeynet.Base.{
  ℕ, String, Bool, false, ◌||◌, List, [], ◌∷◌, map, ◌==◌, if◌then◌else◌, join, ◌<>◌, str,
}
use unikernal_honeynet.Models.{Event}

-- A comma, a quote, or a character that ends a line.
abbrev pub is_special : Char → Bool
is_special c = code c == 44 || code c == 34 || (code c == 10 || code c == 13)

unfoldable pub needs_quotes : String → Bool
needs_quotes String.[] = false
needs_quotes (String.◌∷◌ c s) = is_special c || needs_quotes s

unfoldable pub double_quotes : String → String
double_quotes String.[] = ""
double_quotes (String.◌∷◌ c s) =
    let rest = double_quotes s in
    if code c == 34 then String.◌∷◌ c (String.◌∷◌ c rest) else String.◌∷◌ c rest

unfoldable pub csv_field : String → String
csv_field s = if needs_quotes s then "\"" <> (double_quotes s <> "\"") else s

-- `writer.writerow`
unfoldable pub csv_row : List String → String
unfolding csv_field
csv_row fields = join "," (map csv_field fields) <> "\r\n"

unfoldable pub csv_rows : List (List String) → String
unfolding csv_row
csv_rows [] = ""
csv_rows (row ∷ rows) = csv_row row <> csv_rows rows

abbrev pub fieldnames : List String
fieldnames =
    "occurred_at" ∷ "decoy_id" ∷ "profile" ∷ "site" ∷ "src_ip" ∷ "method" ∷ "path" ∷ "status_code"
    ∷ "event_class" ∷ "username" ∷ "password" ∷ "suspicious" ∷ "tags" ∷ []

abbrev bool_text : Bool → String
bool_text b = if b then "True" else "False"

-- The row of an event, its values as `csv` writes them; `isoformat` is that of datetime.
unfoldable pub event_fields : (ℕ → String) → Event → List String
event_fields isoformat event =
    isoformat event.occurred_at
    ∷ event.decoy_id
    ∷ event.profile
    ∷ event.site
    ∷ event.src_ip
    ∷ event.method
    ∷ event.path
    ∷ str event.status_code
    ∷ event.event_class
    ∷ event.username
    ∷ event.password
    ∷ bool_text event.suspicious
    ∷ join "," event.normalized_tags
    ∷ []

unfoldable pub render_csv : (ℕ → String) → List Event → String
unfolding csv_rows event_fields
render_csv isoformat rows = csv_rows (fieldnames ∷ map (event_fields isoformat) rows)
