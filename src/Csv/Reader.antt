-- ===== src/Csv/Reader.antt =====
-- What a reader of CSV files (RFC 4180) finds in what ingest_api/schemas.py, render_csv, writes.
pub mod Blocklist
pub mod Report
use Prim.Native.Char.{Char, code}
use Prim.Native.String
use Prim.Native.String.{char_at}
use mathlib.Core.List.{append_assoc as list_assoc, append-nil as list_nil}
use text.Mathlib.TextLemmas.{nil-append, cons-append, append-nil}
use unikernal_honeynet.Base.{
  nil_text, text_assoc, cons_text, ℕ, String, Bool, true, false, ◌||◌, List, [], ◌∷◌, ◌++◌, map,
  ◌≡◌, refl, ◌∙◌, sym, ap, arith, ◌==◌, if◌then◌else◌, join, ◌<>◌, Bool-cases, inl, inr,
}
use unikernal_honeynet.Models.{Event}
use unikernal_honeynet.Csv.{
  is_special, needs_quotes, double_quotes, csv_field, csv_row, csv_rows, fieldnames, event_fields,
  render_csv,
}

-- Where the reader is: before a field, in one without quotes, between quotes, after a quote between
-- quotes, or after a carriage return.
pub data Mode : Type 0 where
  start plain quoted quote_seen after_cr : Mode

pub record Reader : Type 0 where
  pub mode : Mode
  pub field : String
  pub fields : List String
  pub rows : List (List String)

abbrev reader : Mode → String → List String → List (List String) → Reader
reader m f fs rs = record { mode = m; field = f; fields = fs; rows = rs }

abbrev add_char : Char → Reader → Reader
add_char c r = reader plain (r.field <> String.◌∷◌ c "") r.fields r.rows

abbrev end_field : Reader → Reader
end_field r = reader start "" (r.fields ++ r.field ∷ []) r.rows

abbrev end_row : Mode → Reader → Reader
end_row m r = reader m "" [] (r.rows ++ (r.fields ++ r.field ∷ []) ∷ [])

abbrev read_plain : Char → Reader → Reader
read_plain c r =
    if code c == 44
    then end_field r
    else if code c == 13
    then end_row after_cr r
    else if code c == 10
    then end_row start r
    else add_char c r

abbrev read_start : Char → Reader → Reader
read_start c r = if code c == 34 then reader quoted r.field r.fields r.rows else read_plain c r

abbrev read_quoted : Char → Reader → Reader
read_quoted c r =
    if code c == 34
    then reader quote_seen r.field r.fields r.rows
    else reader quoted (r.field <> String.◌∷◌ c "") r.fields r.rows

abbrev read_quote_seen : Char → Reader → Reader
read_quote_seen c r =
    if code c == 34
    then reader quoted (r.field <> String.◌∷◌ c "") r.fields r.rows
    else read_plain c r

abbrev read_after_cr : Char → Reader → Reader
read_after_cr c r = if code c == 10 then reader start r.field r.fields r.rows else read_start c r

abbrev read_in : Mode → Char → Reader → Reader
read_in start c r = read_start c r
read_in plain c r = read_plain c r
read_in quoted c r = read_quoted c r
read_in quote_seen c r = read_quote_seen c r
read_in after_cr c r = read_after_cr c r

read_char : Char → Reader → Reader
read_char c r = read_in r.mode c r

read : String → Reader → Reader
read String.[] r = r
read (String.◌∷◌ c s) r = read s (read_char c r)

-- The rows of a file, each of which ends with its line.
unfoldable pub read_csv : String → List (List String)
unfolding read read_char
read_csv s = (read s (reader start "" [] [])).rows

read-append : (s t : String) (r : Reader) → read (s <> t) r ≡ read t (read s r)
unfolding read ◌<>◌
read-append String.[] t r = rw nil-append refl
read-append (String.◌∷◌ c s) t r = rw cons-append (read-append s t (read_char c r))

-- One more character at the end of a field, and the rest of the text.
shift : (f s : String) (c : Char) → (f <> String.◌∷◌ c "") <> s ≡ f <> String.◌∷◌ c s
shift f s c =
    text_assoc f (String.◌∷◌ c "") s
    ∙ ap (λ t. f <> t) (cons_text c "" s ∙ ap (λ t. String.◌∷◌ c t) (nil_text s))

read_plain_text :
    (s f : String) (fs : List String) (rs : List (List String))
    → needs_quotes s ≡ false
    → read s (reader plain f fs rs) ≡ reader plain (f <> s) fs rs
unfolding read read_char needs_quotes
read_plain_text String.[] f fs rs h =
    ap (λ t. reader plain t fs rs) (sym (unfold ◌<>◌ in append-nil f))
read_plain_text (String.◌∷◌ c s) f fs rs h =
    let step : read_plain c (reader plain f fs rs) ≡ reader plain (f <> String.◌∷◌ c "") fs rs =
      ground (arith, h) in
    ap (read s) step
    ∙ read_plain_text s (f <> String.◌∷◌ c "") fs rs (ground (arith, h))
    ∙ ap (λ t. reader plain t fs rs) (shift f s c)

doubled :
    (c : Char) (s f : String) (fs : List String) (rs : List (List String))
    → read (double_quotes (String.◌∷◌ c s) <> "\"") (reader quoted f fs rs)
      ≡ read (double_quotes s <> "\"") (reader quoted (f <> String.◌∷◌ c "") fs rs)
unfolding read read_char double_quotes
doubled c s f fs rs =
    let tail : String = double_quotes s <> "\"" in
    elim (Bool-cases (code c == 34)) [
      | inl e ↦
          let twice : read_char c (read_char c (reader quoted f fs rs))
              ≡ reader quoted (f <> String.◌∷◌ c "") fs rs =
            ground (arith, e) in
          rw e (unfold ◌<>◌ in rw cons-append (rw cons-append (ap (read tail) twice)))
      | inr e ↦
          let once : read_char c (reader quoted f fs rs)
              ≡ reader quoted (f <> String.◌∷◌ c "") fs rs =
            ground (arith, e) in
          rw e (unfold ◌<>◌ in rw cons-append (ap (read tail) once))
    ]

read_quoted_text :
    (s f : String) (fs : List String) (rs : List (List String))
    → read (double_quotes s <> "\"") (reader quoted f fs rs) ≡ reader quote_seen (f <> s) fs rs
unfolding read read_char double_quotes ◌<>◌
read_quoted_text String.[] f fs rs = ap (λ t. reader quote_seen t fs rs) (sym (append-nil f))
read_quoted_text (String.◌∷◌ c s) f fs rs =
    doubled c s f fs rs
    ∙ read_quoted_text s (f <> String.◌∷◌ c "") fs rs
    ∙ ap (λ t. reader quote_seen t fs rs) (shift f s c)

-- What is left of a field at the character after it: the field is complete, whatever its quotes.
bare_ends :
    (s : String) (sep : Char) (fs : List String) (rs : List (List String))
    → needs_quotes s ≡ false
    → (code sep == 34) ≡ false
    → read_char sep (read s (reader start "" fs rs)) ≡ read_plain sep (reader start s fs rs)
unfolding read read_char needs_quotes
bare_ends String.[] sep fs rs b h = rw h refl
bare_ends (String.◌∷◌ c s) sep fs rs b h =
    let step : read_start c (reader start "" fs rs) ≡ reader plain ("" <> String.◌∷◌ c "") fs rs =
      ground (arith, b) in
    ap (λ r. read_char sep (read s r)) step
    ∙ ap (read_char sep) (
        read_plain_text s ("" <> String.◌∷◌ c "") fs rs (ground (arith, b))
        ∙ ap (λ t. reader plain t fs rs) (shift "" s c ∙ nil_text (String.◌∷◌ c s)))
    ∙ ground (arith, h)

ends_field :
    (s : String) (sep : Char) (fs : List String) (rs : List (List String))
    → (code sep == 34) ≡ false
    → read_char sep (read (csv_field s) (reader start "" fs rs))
      ≡ read_plain sep (reader start s fs rs)
unfolding csv_field read read_char
ends_field s sep fs rs h = elim (Bool-cases (needs_quotes s)) [
  | inl e ↦ rw e (
      ap (read_char sep) (
        read-append "\"" (double_quotes s <> "\"") (reader start "" fs rs)
        ∙ read_quoted_text s "" fs rs
        ∙ ap (λ t. reader quote_seen t fs rs) (nil_text s))
      ∙ ground (arith, h))
  | inr e ↦ rw e (bare_ends s sep fs rs e h)
]

ends_row :
    (s : String) (fs : List String) (rs : List (List String))
    → read (csv_field s <> "\r\n") (reader start "" fs rs)
      ≡ reader start "" [] (rs ++ (fs ++ s ∷ []) ∷ [])
unfolding read
ends_row s fs rs =
    read-append (csv_field s) "\r\n" (reader start "" fs rs)
    ∙ ap (read_char (char_at "\n" 0)) (ends_field s (char_at "\r" 0) fs rs refl)
    ∙ (unfold read_char in refl)

next :
    (s rest : String) (fs : List String) (rs : List (List String))
    → read ("," <> rest) (read (csv_field s) (reader start "" fs rs))
      ≡ read rest (reader start "" (fs ++ s ∷ []) rs)
next s rest fs rs =
    read-append "," rest (read (csv_field s) (reader start "" fs rs))
    ∙ ap (read rest) (unfold read in ends_field s (char_at "," 0) fs rs refl)

read_row :
    (s : String) (row fs : List String) (rs : List (List String))
    → read (csv_row (s ∷ row)) (reader start "" fs rs)
      ≡ reader start "" [] (rs ++ (fs ++ s ∷ row) ∷ [])
unfolding csv_row join
read_row s [] fs rs = ends_row s fs rs
read_row s (x ∷ row) fs rs =
    let rest : String = join "," (map csv_field (x ∷ row)) <> "\r\n" in
    let split : csv_row (s ∷ x ∷ row) ≡ csv_field s <> ("," <> rest) =
      text_assoc (csv_field s) ("," <> join "," (map csv_field (x ∷ row))) "\r\n"
      ∙ ap (λ t. csv_field s <> t) (text_assoc "," (join "," (map csv_field (x ∷ row))) "\r\n") in
    ap (λ t. read t (reader start "" fs rs)) split
    ∙ read-append (csv_field s) ("," <> rest) (reader start "" fs rs)
    ∙ next s rest fs rs
    ∙ read_row x row (fs ++ s ∷ []) rs
    ∙ ap (λ t. reader start "" [] (rs ++ t ∷ [])) (list_assoc fs (s ∷ []) (x ∷ row))
