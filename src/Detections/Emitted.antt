-- ===== src/Detections/Emitted.antt =====
-- The detections that an event calls for, in materialize_detections of ingest_api/services.py.
use unikernal_honeynet.Base.{
  ℕ, ◌+◌, ◌*◌, Bool, true, false, ◌&&◌, ◌||◌, List, [], ◌∷◌, ◌++◌, length, leb, any, count_if,
  length-filter, elem, str_eq, eq_iff, ◌≡◌, refl, ◌∙◌, sym, ap, arith, if◌then◌else◌, Bool-cases,
  inl, inr,
}
use unikernal_honeynet.Models.{
  Event, DetectionType, internet_recon, credential_bruteforce, credential_stuffing,
  path_traversal_probe, xss_probe, sqli_probe, sensitive_path_discovery, admin_panel_enumeration,
  distributed_scanner_activity,
}
use unikernal_honeynet.Schemas.{Settings}
use unikernal_honeynet.Tags.{sensitive_paths}
use unikernal_honeynet.Detections.Rules.{
  Emission, Window, window_of, emit_if, types_to_emit, type_name, recent_events_for_source,
  is_login, sensitive_hits,
}
use unikernal_honeynet.Detections.Materialize.{first_of_types}

-- An entry of the type is in the list.
abbrev pub emits : DetectionType → List Emission → Bool
emits t = any (λ e. str_eq (type_name e.detection_type) (type_name t))

-- When an event calls for a type.
abbrev pub calls_for : DetectionType → Event → Window → Bool
calls_for path_traversal_probe event w = elem "path_traversal_probe" event.normalized_tags
calls_for xss_probe event w = elem "xss_probe" event.normalized_tags
calls_for sqli_probe event w = elem "sqli_probe" event.normalized_tags
calls_for sensitive_path_discovery event w = elem event.path sensitive_paths
calls_for admin_panel_enumeration event w =
    leb 2 (count_if (λ path. elem path sensitive_paths) w.unique_paths)
calls_for credential_bruteforce event w = is_login event && leb 3 w.attempts
calls_for credential_stuffing event w =
    is_login event && (leb 5 w.attempts && leb 3 (length w.usernames))
calls_for internet_recon event w =
    leb 4 (length w.unique_paths)
    || event.suspicious && (str_eq event.event_class "recon" || str_eq event.event_class "scan")
calls_for distributed_scanner_activity event w = leb 3 (length w.decoys_hit)

emits-emit_if :
    (t : DetectionType) (test : Bool) (e : Emission) (rest : List Emission)
    → emits t (emit_if test e ++ rest)
      ≡ (test && str_eq (type_name e.detection_type) (type_name t) || emits t rest)
emits-emit_if t true e rest = refl
emits-emit_if t false e rest = refl

and_false : (b : Bool) → (b && false) ≡ false
and_false b = ground arith

and_true : (b : Bool) → (b && true) ≡ b
and_true b = ground arith

or_false : (b : Bool) → (b || false) ≡ b
or_false b = ground arith

emits-emit_if_last :
    (t : DetectionType) (test : Bool) (e : Emission)
    → emits t (emit_if test e) ≡ (test && str_eq (type_name e.detection_type) (type_name t))
emits-emit_if_last t test e = ground arith

-- The loop calls for a type exactly under the type's condition.
emits-types_to_emit :
    (t : DetectionType) (event : Event) (w : Window)
    → emits t (types_to_emit event w) ≡ calls_for t event w
unfolding types_to_emit type_name sensitive_hits
emits-types_to_emit internet_recon event w =
    simp
      (
        emits-emit_if internet_recon,
        emits-emit_if_last internet_recon,
        and_false,
        and_true,
        or_false,
      )
      refl
emits-types_to_emit credential_bruteforce event w =
    simp
      (
        emits-emit_if credential_bruteforce,
        emits-emit_if_last credential_bruteforce,
        and_false,
        and_true,
        or_false,
      )
      refl
emits-types_to_emit credential_stuffing event w =
    simp
      (
        emits-emit_if credential_stuffing,
        emits-emit_if_last credential_stuffing,
        and_false,
        and_true,
        or_false,
      )
      refl
emits-types_to_emit path_traversal_probe event w =
    simp
      (
        emits-emit_if path_traversal_probe,
        emits-emit_if_last path_traversal_probe,
        and_false,
        and_true,
        or_false,
      )
      refl
emits-types_to_emit xss_probe event w =
    simp (emits-emit_if xss_probe, emits-emit_if_last xss_probe, and_false, and_true, or_false) refl
emits-types_to_emit sqli_probe event w =
    simp (emits-emit_if sqli_probe, emits-emit_if_last sqli_probe, and_false, and_true, or_false)
      refl
emits-types_to_emit sensitive_path_discovery event w =
    simp
      (
        emits-emit_if sensitive_path_discovery,
        emits-emit_if_last sensitive_path_discovery,
        and_false,
        and_true,
        or_false,
      )
      refl
emits-types_to_emit admin_panel_enumeration event w =
    simp
      (
        emits-emit_if admin_panel_enumeration,
        emits-emit_if_last admin_panel_enumeration,
        and_false,
        and_true,
        or_false,
      )
      (ap (λ n. leb 2 n) (length-filter _ w.unique_paths))
emits-types_to_emit distributed_scanner_activity event w =
    simp
      (
        emits-emit_if distributed_scanner_activity,
        emits-emit_if_last distributed_scanner_activity,
        and_false,
        and_true,
        or_false,
      )
      refl

-- How often a list has an entry of the type.
abbrev pub times : DetectionType → List Emission → ℕ
times t = count_if (λ e. str_eq (type_name e.detection_type) (type_name t))

abbrev has_type : DetectionType → List DetectionType → Bool
has_type t = any (λ other. str_eq (type_name other) (type_name t))

pub times-first_of_types :
    (t : DetectionType) (seen : List DetectionType) (es : List Emission)
    → times t (first_of_types seen es)
      ≡ (if has_type t seen then 0 else if emits t es then 1 else 0)
unfolding first_of_types
times-first_of_types t seen [] = ground arith
times-first_of_types t seen (e ∷ es) =
    elim (Bool-cases (str_eq (type_name e.detection_type) (type_name t))) [
      | inl h ↦ rw ((eq_iff (type_name e.detection_type) (type_name t)).0 h) (
          ground (
            arith,
            h,
            times-first_of_types t seen es,
            times-first_of_types t (e.detection_type ∷ seen) es,
            eq_iff (type_name t) (type_name t),
          ))
      | inr h ↦ ground (
        arith,
        h,
        times-first_of_types t seen es,
        times-first_of_types t (e.detection_type ∷ seen) es,
      )
    ]

-- For each event and each of the nine types, one detection is recorded if the type's condition
-- holds, and none else: the set `seen_types` never drops an entry.
pub recorded_once :
    (t : DetectionType) (event : Event) (w : Window)
    → times t (first_of_types [] (types_to_emit event w)) ≡ (if calls_for t event w then 1 else 0)
recorded_once t event w =
    times-first_of_types t [] (types_to_emit event w)
    ∙ ap (λ b. if b then 1 else 0) (emits-types_to_emit t event w)

-- An event that is recorded as credential stuffing is recorded as credential brute force, too.
pub stuffing_is_bruteforce :
    (event : Event) (w : Window)
    → emits credential_stuffing (types_to_emit event w) ≡ true
    → emits credential_bruteforce (types_to_emit event w) ≡ true
stuffing_is_bruteforce event w h =
    let login = sym (emits-types_to_emit credential_stuffing event w) ∙ h in
    emits-types_to_emit credential_bruteforce event w ∙ ground (arith, login)

-- The row is of the event's source, and at most so many minutes older.
abbrev pub in_window : Event → ℕ → Event → Bool
in_window event minutes row =
    str_eq row.src_ip event.src_ip
    && (leb event.occurred_at (row.occurred_at + minutes * 60_000_000)
        && leb row.occurred_at event.occurred_at)

-- A login calls for credential brute force exactly if three or more events of its source, of any path
-- and method, are in the window: failures of a login are not counted.
pub bruteforce_counts_all :
    (settings : Settings) (events : List Event) (event : Event)
    → emits credential_bruteforce (types_to_emit event (window_of settings events event)) ≡ (
        is_login event
        && leb 3 (count_if (in_window event settings.detection_window_minutes) events))
unfolding window_of recent_events_for_source
bruteforce_counts_all settings events event =
    emits-types_to_emit credential_bruteforce event (window_of settings events event)
    ∙ ap (λ n. is_login event && leb 3 n) (length-filter _ events)
