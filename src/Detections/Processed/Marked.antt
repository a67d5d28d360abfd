-- ===== src/Detections/Processed/Marked.antt =====
-- What marking an event as processed leaves as it is, in ingest_api/services.py.
use unikernal_honeynet.Base.{
  ℕ, String, Bool, true, ◌&&◌, not, List, [], ◌∷◌, map, ◌≡◌, refl, ◌∙◌, sym, ap, subst, arith,
  str_eq, eq_iff, ◌==◌, leb, ◌+◌, ◌*◌, if◌then◌else◌, any, All, length, filter, Bool-cases, inl,
  inr,
}
use unikernal_honeynet.Schemas.{Settings}
use unikernal_honeynet.Models.{
  Event, DetectionType, internet_recon, credential_bruteforce, credential_stuffing,
  path_traversal_probe, xss_probe, sqli_probe, sensitive_path_discovery, admin_panel_enumeration,
  distributed_scanner_activity,
}
use unikernal_honeynet.Session.{update_where}
use unikernal_honeynet.Detections.Rules.{Emission, window_of, type_name, recent_events_for_source}
use unikernal_honeynet.Detections.Emitted.{times}

abbrev pub mark : ℕ → List Event → List Event
mark id = update_where (λ row. row.id == id) (λ row. record row { alert_processed = true })

-- A column that marking does not write, of the rows that such columns select.
map-filter-mark :
    {A : Type 0} (f : Event → A) (p : Event → Bool) (id : ℕ)
    → ((row : Event) → f (record row { alert_processed = true }) ≡ f row)
    → ((row : Event) → p (record row { alert_processed = true }) ≡ p row)
    → (rows : List Event) → map f (filter p (mark id rows)) ≡ map f (filter p rows)
unfolding update_where
map-filter-mark f p id same kept [] = refl
map-filter-mark f p id same kept (row ∷ rows) =
    ground (arith, same row, kept row, map-filter-mark f p id same kept rows)

length-filter-mark :
    (p : Event → Bool) (id : ℕ)
    → ((row : Event) → p (record row { alert_processed = true }) ≡ p row)
    → (rows : List Event) → length (filter p (mark id rows)) ≡ length (filter p rows)
unfolding update_where
length-filter-mark p id kept [] = refl
length-filter-mark p id kept (row ∷ rows) =
    ground (arith, kept row, length-filter-mark p id kept rows)

-- The sets that the rules count are the same after an event is marked.
pub window_of-mark :
    (settings : Settings) (event : Event) (id : ℕ) (rows : List Event)
    → window_of settings (mark id rows) event ≡ window_of settings rows event
unfolding window_of recent_events_for_source
window_of-mark settings event id rows =
    let recent : ℕ → Event → Bool = λ minutes row.
      str_eq row.src_ip event.src_ip
      && (leb event.occurred_at (row.occurred_at + minutes * 60_000_000)
          && leb row.occurred_at event.occurred_at) in
    let near = recent settings.detection_window_minutes in
    let wide = recent settings.distributed_window_minutes in
    cc (
      length-filter-mark near id (λ _. refl) rows,
      map-filter-mark (λ row. row.username) near id (λ _. refl) (λ _. refl) rows,
      map-filter-mark (λ row. row.path) near id (λ _. refl) (λ _. refl) rows,
      map-filter-mark (λ row. row.decoy_id) wide id (λ _. refl) (λ _. refl) rows,
    )

-- The type with a name.
type_named : String → DetectionType
type_named s =
    if str_eq s "internet_recon"
    then internet_recon
    else if str_eq s "credential_bruteforce"
    then credential_bruteforce
    else if str_eq s "credential_stuffing"
    then credential_stuffing
    else if str_eq s "path_traversal_probe"
    then path_traversal_probe
    else if str_eq s "xss_probe"
    then xss_probe
    else if str_eq s "sqli_probe"
    then sqli_probe
    else if str_eq s "sensitive_path_discovery"
    then sensitive_path_discovery
    else if str_eq s "admin_panel_enumeration"
    then admin_panel_enumeration
    else distributed_scanner_activity

type_named-type_name : (t : DetectionType) → type_named (type_name t) ≡ t
unfolding type_named type_name
type_named-type_name internet_recon = refl
type_named-type_name credential_bruteforce = refl
type_named-type_name credential_stuffing = refl
type_named-type_name path_traversal_probe = refl
type_named-type_name xss_probe = refl
type_named-type_name sqli_probe = refl
type_named-type_name sensitive_path_discovery = refl
type_named-type_name admin_panel_enumeration = refl
type_named-type_name distributed_scanner_activity = refl

type_name-injective : (t u : DetectionType) → type_name t ≡ type_name u → t ≡ u
type_name-injective t u h = sym (type_named-type_name t) ∙ ap type_named h ∙ type_named-type_name u

-- What holds of every entry of a list holds of a type that the list has.
pub names_type :
    (P : DetectionType → Type 0) (t : DetectionType) (es : List Emission)
    → times t es ≡ 1
    → All (λ e. P e.detection_type) es
    → P t
names_type P t [] h a = absurd (omega (arith, h))
names_type P t (e ∷ es) h a =
    elim (Bool-cases (str_eq (type_name e.detection_type) (type_name t))) [
      | inl hit ↦
          subst P
            (type_name-injective e.detection_type t
              ((eq_iff (type_name e.detection_type) (type_name t)).0 hit))
            a.0
      | inr miss ↦ names_type P t es (ground (arith, miss, h)) a.1
    ]

-- No event with the id is pending.
abbrev pub settled : ℕ → List Event → Bool
settled id rows = not (any (λ row. row.id == id && not row.alert_processed) rows)

pub settled-mark :
    (id other : ℕ) (rows : List Event)
    → settled id rows ≡ true
    → settled id (mark other rows) ≡ true
unfolding update_where
settled-mark id other [] h = refl
settled-mark id other (row ∷ rows) h = ground (arith, h, settled-mark id other rows)

pub settled-marked : (id : ℕ) (rows : List Event) → settled id (mark id rows) ≡ true
unfolding update_where
settled-marked id [] = refl
settled-marked id (row ∷ rows) = ground (arith, settled-marked id rows)

pub has_key-mark :
    (k : String) (id : ℕ) (rows : List Event)
    → any (λ row. str_eq row.event_id k) (mark id rows) ≡ any (λ row. str_eq row.event_id k) rows
unfolding update_where
has_key-mark k id [] = refl
has_key-mark k id (row ∷ rows) = ground (arith, has_key-mark k id rows)
