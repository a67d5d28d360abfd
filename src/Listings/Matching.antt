-- ===== src/Listings/Matching.antt =====
-- What the lists of ingest_api/main.py hold: rows that match, as many as there are up to the limit.
use unikernal_honeynet.Base.{
  ℕ, suc, ◌≤◌, min, String, Bool, true, false, ◌&&◌, List, [], ◌∷◌, Option, none, some, ◌≡◌, refl,
  ◌∙◌, sym, ap, subst, arith, str_eq, if◌then◌else◌, truthy, All, take, filter, count_if, length,
  length-take, length-filter, Bool-cases, inl, inr,
}
use unikernal_honeynet.Models.{Db, Event, Detection}
use unikernal_honeynet.Detections.Rules.{type_name}
use unikernal_honeynet.Listings.{
  where_text, where_flag, EventQuery, list_events, DetectionQuery, list_detections, level_name,
}

-- A parameter of the query agrees with a column: a missing one, or the empty text, always does.
abbrev pub agrees : Option String → String → Bool
agrees none column = true
agrees (some value) column = if truthy value then str_eq column value else true

abbrev pub agrees_flag : Option Bool → Bool → Bool
agrees_flag none column = true
agrees_flag (some true) column = column
agrees_flag (some false) column = if column then false else true

module _ {A : Type 0} where
  filter_all : (rows : List A) → filter (λ _. true) rows ≡ rows
  filter_all [] = refl
  filter_all (row ∷ rows) = ap (λ xs. row ∷ xs) (filter_all rows)

  where_text-filter :
      (column : A → String) (o : Option String) (rows : List A)
      → where_text column o rows ≡ filter (λ row. agrees o (column row)) rows
  unfolding where_text
  where_text-filter column none rows = sym (filter_all rows)
  where_text-filter column (some value) rows = elim (Bool-cases (truthy value)) [
    | inl e ↦ rw e refl
    | inr e ↦ rw e (sym (filter_all rows))
  ]

  where_flag-filter :
      (column : A → Bool) (o : Option Bool) (rows : List A)
      → where_flag column o rows ≡ filter (λ row. agrees_flag o (column row)) rows
  unfolding where_flag
  where_flag-filter column none rows = sym (filter_all rows)
  where_flag-filter column (some true) rows = refl
  where_flag-filter column (some false) rows = refl

  filter-filter :
      (p q : A → Bool) (rows : List A)
      → filter p (filter q rows) ≡ filter (λ row. q row && p row) rows
  filter-filter p q [] = refl
  filter-filter p q (row ∷ rows) = ground (arith, filter-filter p q rows)

  count_if-filter :
      (p : A → Bool) (rows : List A) → count_if p (filter p rows) ≡ length (filter p rows)
  count_if-filter p [] = refl
  count_if-filter p (row ∷ rows) = ground (arith, count_if-filter p rows)

  count_if-le : (p : A → Bool) (rows : List A) → count_if p rows ≤ length rows
  count_if-le p [] = omega arith
  count_if-le p (row ∷ rows) = ground (arith, count_if-le p rows)

  All-of_count :
      (p : A → Bool) (n : ℕ) (rows : List A)
      → count_if p rows ≡ length rows
      → All (λ row. p row ≡ true) (take n rows)
  All-of_count p ℕ.zero rows h = tt
  All-of_count p (suc n) [] h = tt
  All-of_count p (suc n) (row ∷ rows) h = (
    ground (arith, h, count_if-le p rows),
    All-of_count p n rows (ground (arith, h, count_if-le p rows)),
  )

  -- One more parameter.
  where_then :
      (column : A → String) (o : Option String) (p : A → Bool) (rows base : List A)
      → rows ≡ filter p base
      → where_text column o rows ≡ filter (λ row. p row && agrees o (column row)) base
  where_then column o p rows base h =
      where_text-filter column o rows
      ∙ ap (filter (λ row. agrees o (column row))) h
      ∙ filter-filter (λ row. agrees o (column row)) p base

  -- A page of the rows that match, in an order that neither adds nor drops a row.
  page_matches :
      (order : List A → List A) (p : A → Bool) (n : ℕ) (rows : List A)
      → ((q : A → Bool) (xs : List A) → count_if q (order xs) ≡ count_if q xs)
      → ((xs : List A) → length (order xs) ≡ length xs)
      → All (λ row. p row ≡ true) (take n (order (filter p rows)))
        × (length (take n (order (filter p rows))) ≡ min n (count_if p rows))
  page_matches order p n rows same long = (
    All-of_count p n (order (filter p rows))
        (same p (filter p rows) ∙ count_if-filter p rows ∙ sym (long (filter p rows))),
    length-take n (order (filter p rows))
        ∙ ap (min n) (long (filter p rows) ∙ length-filter p rows),
  )

-- The event agrees with every parameter of the query.
abbrev pub event_matches : EventQuery → Event → Bool
event_matches q row =
    ((agrees_flag q.suspicious row.suspicious && agrees q.decoy_id row.decoy_id)
      && agrees q.src_ip row.src_ip)
    && agrees q.path row.path

-- The detection agrees with every parameter of the query; the status "all" agrees with any.
abbrev pub detection_matches : DetectionQuery → Detection → Bool
detection_matches q row =
    ((((if str_eq q.status "all" then true else str_eq row.status q.status)
          && agrees q.severity (level_name row.severity))
        && agrees q.detection_type (type_name row.detection_type))
      && agrees q.site row.site)
    && agrees q.src_ip row.src_ip

status_filter :
    (status : String) (rows : List Detection)
    → (if str_eq status "all" then rows else filter (λ row. str_eq row.status status) rows)
      ≡ filter (λ row. if str_eq status "all" then true else str_eq row.status status) rows
status_filter status rows = elim (Bool-cases (str_eq status "all")) [
  | inl e ↦ rw e (sym (filter_all rows))
  | inr e ↦ rw e refl
]

-- With an order of the database that neither adds nor drops a row, a list of events has only rows
-- that agree with every given parameter, and all of them up to its limit.
pub list_events_page :
    (newest_first : List Event → List Event) (q : EventQuery) (db : Db)
    → ((p : Event → Bool) (xs : List Event) → count_if p (newest_first xs) ≡ count_if p xs)
    → ((xs : List Event) → length (newest_first xs) ≡ length xs)
    → All (λ row. event_matches q row ≡ true) (list_events newest_first q db)
      × (length (list_events newest_first q db)
          ≡ min q.limit (count_if (event_matches q) db.events))
unfolding list_events
list_events_page newest_first q db same long =
    subst
      (λ xs.
        All (λ row. event_matches q row ≡ true) (take q.limit (newest_first xs))
        × (length (take q.limit (newest_first xs))
            ≡ min q.limit (count_if (event_matches q) db.events)))
      (sym (
        where_then (λ (row : Event). row.path) q.path _ _ db.events
          (where_then (λ (row : Event). row.src_ip) q.src_ip _ _ db.events
            (where_then (λ (row : Event). row.decoy_id) q.decoy_id _ _ db.events
              (where_flag-filter (λ (row : Event). row.suspicious) q.suspicious db.events)))))
      (page_matches newest_first (event_matches q) q.limit db.events same long)

-- With an order of the database that neither adds nor drops a row, a list of detections has only rows
-- that agree with every given parameter, and all of them up to 300.
pub list_detections_page :
    (newest_first : List Detection → List Detection) (q : DetectionQuery) (db : Db)
    → ((p : Detection → Bool) (xs : List Detection) → count_if p (newest_first xs) ≡ count_if p xs)
    → ((xs : List Detection) → length (newest_first xs) ≡ length xs)
    → All (λ row. detection_matches q row ≡ true) (list_detections newest_first q db)
      × (length (list_detections newest_first q db)
          ≡ min 300 (count_if (detection_matches q) db.detections))
unfolding list_detections
list_detections_page newest_first q db same long =
    subst
      (λ xs.
        All (λ row. detection_matches q row ≡ true) (take 300 (newest_first xs))
        × (length (take 300 (newest_first xs))
            ≡ min 300 (count_if (detection_matches q) db.detections)))
      (sym (
        where_then (λ (row : Detection). row.src_ip) q.src_ip _ _ db.detections
          (where_then (λ (row : Detection). row.site) q.site _ _ db.detections
            (where_then (λ (row : Detection). type_name row.detection_type) q.detection_type _ _
              db.detections
              (where_then (λ (row : Detection). level_name row.severity) q.severity _ _
                db.detections (status_filter q.status db.detections))))))
      (page_matches newest_first (detection_matches q) 300 db.detections same long)
