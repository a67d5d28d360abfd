-- ===== src/Csv/Reader/Blocklist.antt =====
-- What a reader of CSV files finds in the block list that ingest_api/services.py writes without `csv`.
use Prim.Native.String.{char_at}
use mathlib.Core.List.{append_assoc as list_assoc}
use unikernal_honeynet.Base.{
  ℕ, zero, suc, ◌<◌, String, false, ◌||◌, List, [], ◌∷◌, ◌++◌, map, ◌≡◌, refl, ◌∙◌, sym, ap, arith,
  join, ◌<>◌, str, str-induction, nil_text, text_assoc, cons_text, All,
}
use unikernal_honeynet.Csv.{needs_quotes}
use unikernal_honeynet.Csv.Reader.{start, Reader, reader, read, read_csv, read-append, bare_ends}
use unikernal_honeynet.Exports.{csv_line, blocklist_csv}

-- No comma, quote or end of a line.
abbrev pub IsBare : String → Type 0
IsBare s = needs_quotes s ≡ false

needs_quotes-append : (s t : String) → needs_quotes (s <> t) ≡ (needs_quotes s || needs_quotes t)
unfolding needs_quotes
needs_quotes-append String.[] t = ap needs_quotes (nil_text t)
needs_quotes-append (String.◌∷◌ c s) t =
    ap needs_quotes (cons_text c s t) ∙ ground (arith, needs_quotes-append s t)

digit_IsBare : (d : ℕ) → d < 10 → IsBare (String.◌∷◌ (char_at "0123456789" d) "")
unfolding needs_quotes
digit_IsBare zero h = refl
digit_IsBare (suc zero) h = refl
digit_IsBare (suc (suc zero)) h = refl
digit_IsBare (suc (suc (suc zero))) h = refl
digit_IsBare (suc (suc (suc (suc zero)))) h = refl
digit_IsBare (suc (suc (suc (suc (suc zero))))) h = refl
digit_IsBare (suc (suc (suc (suc (suc (suc zero)))))) h = refl
digit_IsBare (suc (suc (suc (suc (suc (suc (suc zero))))))) h = refl
digit_IsBare (suc (suc (suc (suc (suc (suc (suc (suc zero)))))))) h = refl
digit_IsBare (suc (suc (suc (suc (suc (suc (suc (suc (suc zero))))))))) h = refl
digit_IsBare (suc (suc (suc (suc (suc (suc (suc (suc (suc (suc d)))))))))) h = absurd (omega arith)

str-IsBare : (n : ℕ) → IsBare (str n)
str-IsBare = str-induction IsBare (unfold needs_quotes in refl) λ s d h bare.
    needs_quotes-append s (String.◌∷◌ (char_at "0123456789" d) "")
    ∙ ground (arith, bare, digit_IsBare d h)

-- A text up to its comma, and one up to the end of its line.
cell :
    (t rest : String) (fs : List String) (rs : List (List String))
    → IsBare t
    → read (t <> ("," <> rest)) (reader start "" fs rs)
      ≡ read rest (reader start "" (fs ++ t ∷ []) rs)
cell t rest fs rs bare =
    read-append t ("," <> rest) (reader start "" fs rs)
    ∙ read-append "," rest (read t (reader start "" fs rs))
    ∙ ap (read rest) (unfold read in bare_ends t (char_at "," 0) fs rs bare refl)

last_cell :
    (t rest : String) (fs : List String) (rs : List (List String))
    → IsBare t
    → read (t <> ("\n" <> rest)) (reader start "" fs rs)
      ≡ read rest (reader start "" [] (rs ++ (fs ++ t ∷ []) ∷ []))
last_cell t rest fs rs bare =
    read-append t ("\n" <> rest) (reader start "" fs rs)
    ∙ read-append "\n" rest (read t (reader start "" fs rs))
    ∙ ap (read rest) (unfold read in bare_ends t (char_at "\n" 0) fs rs bare refl)

-- The columns of a line.
record Line : Type 0 where
  text : String
  columns : List String
  reads :
      (rest : String) (rs : List (List String))
      → read (text <> ("\n" <> rest)) (reader start "" [] rs)
        ≡ read rest (reader start "" [] (rs ++ columns ∷ []))

read_lines :
    (line : Line) (lines : List Line) (rs : List (List String))
    → read
        (join "\n" (line.text ∷ map (λ (l : Line). l.text) lines) <> "\n")
        (reader start "" [] rs)
      ≡ reader start "" [] (rs ++ line.columns ∷ map (λ (l : Line). l.columns) lines)
unfolding join
read_lines line [] rs = line.reads "" rs ∙ (unfold read in refl)
read_lines line (next ∷ lines) rs =
    let others : String = join "\n" (next.text ∷ map (λ (l : Line). l.text) lines) in
    ap (λ t. read t (reader start "" [] rs))
      (text_assoc line.text ("\n" <> others) "\n"
        ∙ ap (λ t. line.text <> t) (text_assoc "\n" others "\n"))
    ∙ line.reads (others <> "\n") rs
    ∙ read_lines next lines (rs ++ line.columns ∷ [])
    ∙ ap (λ t. reader start "" [] t)
        (list_assoc rs (line.columns ∷ []) (next.columns ∷ map (λ (l : Line). l.columns) lines))

-- A target of the block list, cut at its commas, and its number of detections.
pub record Entry : Type 0 where
  pub first : String
  pub more : List String
  pub detections : ℕ
  pub bare : All IsBare (first ∷ more)

abbrev pub entry_row : Entry → String × ℕ
entry_row e = (join "," (e.first ∷ e.more), e.detections)

abbrev pub entry_columns : Entry → List String
entry_columns e = e.first ∷ e.more ++ str e.detections ∷ []

read_entry :
    (p : String) (ps : List String) (n : ℕ) (rest : String) (fs : List String)
    (rs : List (List String))
    → All IsBare (p ∷ ps)
    → read ((join "," (p ∷ ps) <> ("," <> str n)) <> ("\n" <> rest)) (reader start "" fs rs)
      ≡ read rest (reader start "" [] (rs ++ (fs ++ (p ∷ ps ++ str n ∷ [])) ∷ []))
unfolding join
read_entry p [] n rest fs rs bare =
    ap (λ t. read t (reader start "" fs rs))
      (text_assoc p ("," <> str n) ("\n" <> rest)
        ∙ ap (λ t. p <> t) (text_assoc "," (str n) ("\n" <> rest)))
    ∙ cell p (str n <> ("\n" <> rest)) fs rs bare.0
    ∙ last_cell (str n) rest (fs ++ p ∷ []) rs (str-IsBare n)
    ∙ ap (λ t. read rest (reader start "" [] (rs ++ t ∷ []))) (list_assoc fs (p ∷ []) (str n ∷ []))
read_entry p (q ∷ ps) n rest fs rs bare =
    let j : String = join "," (q ∷ ps) in
    ap (λ t. read t (reader start "" fs rs))
      (ap (λ t. t <> ("\n" <> rest))
          (text_assoc p ("," <> j) ("," <> str n)
            ∙ ap (λ t. p <> t) (text_assoc "," j ("," <> str n)))
        ∙ text_assoc p ("," <> (j <> ("," <> str n))) ("\n" <> rest)
        ∙ ap (λ t. p <> t) (text_assoc "," (j <> ("," <> str n)) ("\n" <> rest)))
    ∙ cell p ((j <> ("," <> str n)) <> ("\n" <> rest)) fs rs bare.0
    ∙ read_entry q ps n rest (fs ++ p ∷ []) rs bare.1
    ∙ ap (λ t. read rest (reader start "" [] (rs ++ t ∷ [])))
        (list_assoc fs (p ∷ []) (q ∷ ps ++ str n ∷ []))

entry_line : Entry → Line
entry_line e = record {
  text = csv_line (entry_row e);
  columns = entry_columns e;
  reads = λ rest rs. read_entry e.first e.more e.detections rest [] rs e.bare;
}

header_reads :
    (rest : String) (rs : List (List String))
    → read ("target,detections" <> ("\n" <> rest)) (reader start "" [] rs)
      ≡ read rest (reader start "" [] (rs ++ ("target" ∷ "detections" ∷ []) ∷ []))
unfolding ◌<>◌
header_reads rest rs =
    ap (λ t. read t (reader start "" [] rs))
      (text_assoc "target," "detections" ("\n" <> rest)
        ∙ text_assoc "target" "," ("detections" <> ("\n" <> rest)))
    ∙ cell "target" ("detections" <> ("\n" <> rest)) [] rs (unfold needs_quotes in refl)
    ∙ last_cell "detections" rest ("target" ∷ []) rs (unfold needs_quotes in refl)

header_line : Line
header_line = record {
  text = "target,detections";
  columns = "target" ∷ "detections" ∷ [];
  reads = header_reads;
}

map-entry :
    {B : Type 0} (f : Line → B) (g : Entry → B)
    → ((e : Entry) → f (entry_line e) ≡ g e)
    → (entries : List Entry) → map f (map entry_line entries) ≡ map g entries
map-entry f g h [] = refl
map-entry f g h (e ∷ entries) =
    ap (λ c. c ∷ map f (map entry_line entries)) (h e)
    ∙ ap (λ cs. g e ∷ cs) (map-entry f g h entries)

-- A reader finds in the CSV block list the two names of its columns, and a row for each target. A
-- target without a comma is one column, and its count the next; each comma of a target makes one
-- column more. No target has a quote or the end of a line.
pub read_csv-blocklist_csv :
    (entries : List Entry)
    → read_csv (blocklist_csv (map entry_row entries))
      ≡ ("target" ∷ "detections" ∷ []) ∷ map entry_columns entries
unfolding read_csv blocklist_csv entry_line ◌<>◌ header_line
read_csv-blocklist_csv entries =
    ap (λ (r : Reader). r.rows)
      (ap (λ ts. read (join "\n" ("target,detections" ∷ ts) <> "\n") (reader start "" [] []))
          (sym (texts_of entries))
        ∙ read_lines header_line (map entry_line entries) [])
    ∙ ap (λ cs. ("target" ∷ "detections" ∷ []) ∷ cs)
        (map-entry (λ (l : Line). l.columns) entry_columns (λ e. refl) entries)
  where
    texts_of :
        (es : List Entry)
        → map (λ (l : Line). l.text) (map entry_line es) ≡ map csv_line (map entry_row es)
    texts_of [] = refl
    texts_of (e ∷ es) = ap (λ ts. csv_line (entry_row e) ∷ ts) (texts_of es)
