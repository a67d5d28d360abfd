-- ===== src/Csv/Reader/Report.antt =====
-- What a reader of CSV files finds in a report of ingest_api/schemas.py, render_csv.
use mathlib.Core.List.{append_assoc as list_assoc, append-nil as list_nil}
use unikernal_honeynet.Base.{ℕ, String, List, [], ◌∷◌, ◌++◌, map, ◌≡◌, ◌∙◌, sym, ap}
use unikernal_honeynet.Models.{Event}
use unikernal_honeynet.Csv.{csv_row, csv_rows, fieldnames, event_fields, render_csv}
use unikernal_honeynet.Csv.Reader.{start, Reader, reader, read, read_csv, read-append, read_row}

read_events :
    (isoformat : ℕ → String) (rows : List Event) (rs : List (List String))
    → read (csv_rows (map (event_fields isoformat) rows)) (reader start "" [] rs)
      ≡ reader start "" [] (rs ++ map (event_fields isoformat) rows)
unfolding csv_rows read event_fields
read_events isoformat [] rs = ap (λ t. reader start "" [] t) (sym (list_nil rs))
read_events isoformat (event ∷ rows) rs =
    let fields = event_fields isoformat event in
    read-append (csv_row fields) (csv_rows (map (event_fields isoformat) rows))
      (reader start "" [] rs)
    ∙ ap (read (csv_rows (map (event_fields isoformat) rows)))
        (read_row (isoformat event.occurred_at) _ [] rs)
    ∙ read_events isoformat rows (rs ++ fields ∷ [])
    ∙ ap (λ t. reader start "" [] t)
        (list_assoc rs (fields ∷ []) (map (event_fields isoformat) rows))

-- A reader finds in a report the names of its columns, and for each event its fields.
pub read_csv-render_csv :
    (isoformat : ℕ → String) (rows : List Event)
    → read_csv (render_csv isoformat rows) ≡ fieldnames ∷ map (event_fields isoformat) rows
unfolding read_csv render_csv
read_csv-render_csv isoformat rows =
    ap (λ (r : Reader). r.rows)
      (read-append (csv_row fieldnames) (csv_rows (map (event_fields isoformat) rows))
          (reader start "" [] [])
        ∙ ap (read (csv_rows (map (event_fields isoformat) rows))) (read_row "occurred_at" _ [] [])
        ∙ read_events isoformat rows (fieldnames ∷ []))
