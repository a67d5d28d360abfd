-- ===== src/Detections/Rules.antt =====
-- ingest_api/services.py: the rules, and the detections that one event calls for.
use unikernal_honeynet.Base.{
  ℕ, ◌+◌, ◌*◌, String, Bool, ◌&&◌, ◌||◌, List, [], ◌∷◌, ◌++◌, map, str_eq, leb, if◌then◌else◌,
  filter, length, elem, sorted_set, truthy, ◌<>◌,
}
use unikernal_honeynet.Schemas.{text, number, texts, Dict, Settings}
use unikernal_honeynet.Models.{
  Event, Level, medium, high, critical, DetectionType, internet_recon, credential_bruteforce,
  credential_stuffing, path_traversal_probe, xss_probe, sqli_probe, sensitive_path_discovery,
  admin_panel_enumeration, distributed_scanner_activity,
}
use unikernal_honeynet.Tags.{sensitive_paths}

pub record Rule : Type 0 where
  pub severity : Level
  pub confidence : Level
  pub action : String

abbrev rule : Level → Level → String → Rule
rule s c a = record { severity = s; confidence = c; action = a }

-- `DETECTION_RULES`
unfoldable pub detection_rules : DetectionType → Rule
detection_rules internet_recon =
    rule medium medium
      "Block the source if reconnaissance persists and review perimeter logs for adjacent probing."
detection_rules credential_bruteforce =
    rule high high
      "Block the source IP and rotate exposed credentials on any matching internet-facing services."
detection_rules credential_stuffing =
    rule critical high
      "Immediately block the source and check IAM, VPN, and SSO logs for credential reuse attempts."
detection_rules path_traversal_probe =
    rule high high "Block the source and validate web tier path normalization controls."
detection_rules xss_probe =
    rule medium medium
      "Contain the source if repeated and review front-end sanitization or WAF telemetry."
detection_rules sqli_probe =
    rule high high
      "Block the source and review database-facing web services for matching indicators."
detection_rules sensitive_path_discovery =
    rule medium medium
      "Monitor for repeat attempts and check perimeter logs for access to sensitive administrative paths."
detection_rules admin_panel_enumeration =
    rule high medium
      "Block the source if the pattern continues and verify access controls on administrative endpoints."
detection_rules distributed_scanner_activity =
    rule high high
      "Block the source and search across branch, DMZ, and internet-edge logs for coordinated scanning."

-- The key of the rule, as it stands in fingerprints.
unfoldable pub type_name : DetectionType → String
type_name internet_recon = "internet_recon"
type_name credential_bruteforce = "credential_bruteforce"
type_name credential_stuffing = "credential_stuffing"
type_name path_traversal_probe = "path_traversal_probe"
type_name xss_probe = "xss_probe"
type_name sqli_probe = "sqli_probe"
type_name sensitive_path_discovery = "sensitive_path_discovery"
type_name admin_panel_enumeration = "admin_panel_enumeration"
type_name distributed_scanner_activity = "distributed_scanner_activity"

-- `event.occurred_at - timedelta(minutes=window)` is a time, and does not raise OverflowError.
unfoldable pub has_cutoff : Event → ℕ → Bool
has_cutoff event window = leb (window * 60_000_000) event.occurred_at

-- The query of `_recent_events_for_source`, with a window in minutes; the callers ignore the order.
unfoldable pub recent_events_for_source : List Event → Event → ℕ → List Event
recent_events_for_source events event window =
    filter
      (λ row.
        str_eq row.src_ip event.src_ip
        && (leb event.occurred_at (row.occurred_at + window * 60_000_000)
            && leb row.occurred_at event.occurred_at))
      events

-- An entry of `types_to_emit`.
pub record Emission : Type 0 where
  pub detection_type : DetectionType
  pub title : String
  pub summary : String
  pub evidence : Dict

-- The sets that the tests count, each in the order of its texts.
pub record Window : Type 0 where
  pub attempts : ℕ
  pub usernames : List String
  pub unique_paths : List String
  pub decoys_hit : List String

unfoldable pub window_of : Settings → List Event → Event → Window
window_of settings events event =
    let recent = recent_events_for_source events event settings.detection_window_minutes in
    record {
      attempts = length recent;
      usernames = sorted_set (filter truthy (map (λ row. row.username) recent));
      unique_paths = sorted_set (map (λ row. row.path) recent);
      decoys_hit = sorted_set (
          map (λ row. row.decoy_id)
            (recent_events_for_source events event settings.distributed_window_minutes));
    }

abbrev emit : DetectionType → String → String → Dict → Emission
emit t title summary evidence = record {
  detection_type = t;
  title = title;
  summary = summary;
  evidence = evidence;
}

-- `if test: types_to_emit.append(...)`
abbrev pub emit_if : Bool → Emission → List Emission
emit_if test emission = if test then emission ∷ [] else []

unfoldable pub sensitive_hits : Window → List String
sensitive_hits w = filter (λ path. elem path sensitive_paths) w.unique_paths

unfoldable pub is_login : Event → Bool
is_login event = str_eq event.path "/login" && str_eq event.method "POST"

unfoldable pub types_to_emit : Event → Window → List Emission
types_to_emit event w =
    emit_if (elem "path_traversal_probe" event.normalized_tags) (
      emit path_traversal_probe "Path Traversal Probe" "Traversal-like input observed."
        (("paths", texts (event.path ∷ [])) ∷ ("event_id", text event.event_id) ∷ []))
    ++ (emit_if (elem "xss_probe" event.normalized_tags) (
          emit xss_probe "XSS Probe" "Script injection payload observed against decoy."
            (("event_id", text event.event_id) ∷ []))
        ++ (emit_if (elem "sqli_probe" event.normalized_tags) (
              emit sqli_probe "SQLi Probe" "SQL-like input observed in decoy interaction."
                (("event_id", text event.event_id) ∷ []))
            ++ (emit_if (elem event.path sensitive_paths) (
                  emit sensitive_path_discovery "Sensitive Path Discovery"
                    "Sensitive administrative or secret path was requested."
                    (("path", text event.path) ∷ []))
                ++ (emit_if (leb 2 (length (sensitive_hits w))) (
                      emit admin_panel_enumeration "Admin Panel Enumeration"
                        "Repeated admin-adjacent paths were requested."
                        (("paths", texts (sensitive_hits w)) ∷ []))
                    ++ (emit_if (is_login event && leb 3 w.attempts) (
                          emit credential_bruteforce "Credential Brute Force"
                            "Repeated login failures from a single source were observed."
                            (("attempts", number w.attempts)
                              ∷ ("usernames", texts w.usernames)
                              ∷ []))
                        ++ (emit_if
                              (is_login event && (leb 5 w.attempts && leb 3 (length w.usernames)))
                              (emit credential_stuffing "Credential Stuffing"
                                "The same source attempted multiple credentials across the login surface."
                                (("attempts", number w.attempts)
                                  ∷ ("usernames", texts w.usernames)
                                  ∷ []))
                            ++ (emit_if
                                  (leb 4 (length w.unique_paths)
                                    || event.suspicious
                                      && (str_eq event.event_class "recon"
                                          || str_eq event.event_class "scan"))
                                  (emit internet_recon "Internet Reconnaissance"
                                    "Reconnaissance-like path discovery pattern observed."
                                    (("paths", texts w.unique_paths) ∷ []))
                                ++ emit_if (leb 3 (length w.decoys_hit)) (
                                    emit distributed_scanner_activity "Distributed Scanner Activity"
                                      "The same source touched multiple decoys within the observation window."
                                      (("decoys", texts w.decoys_hit) ∷ [])))))))))

-- The scope of a detection: the source alone, or the source with its decoy and request.
unfoldable pub detection_fingerprint : Event → DetectionType → String
unfolding type_name
detection_fingerprint event distributed_scanner_activity =
    type_name distributed_scanner_activity <> (":" <> event.src_ip)
detection_fingerprint event t =
    type_name t
    <> (":" <> (event.src_ip <> (":" <> (event.decoy_id <> (":" <> event.request_fingerprint)))))
