-- ===== src/Tags/Class.antt =====
-- What `normalize_tags` and `classify_event` of ingest_api/services.py make of a request.
use unikernal_honeynet.Base.{
  String, Bool, true, false, ◌||◌, List, [], ◌∷◌, ◌++◌, ◌≡◌, ◌≢◌, ◌↔◌, refl, arith, elem, upper,
  if◌then◌else◌, eq_iff,
}
use unikernal_honeynet.Schemas.{IngestEventIn}
use unikernal_honeynet.Tags.{add_if, earned_tags, normalize_tags, classify_event}
use unikernal_honeynet.Tags.Normalized.{elem-normalize_tags}

-- The tags that name a credential attempt, a probe, and reconnaissance.
abbrev pub credential_tag : List String → Bool
credential_tag tags = elem "credential_bruteforce" tags || elem "credential_stuffing" tags

abbrev pub probe_tag : List String → Bool
probe_tag tags = elem "sqli_probe" tags || elem "xss_probe" tags || elem "path_traversal_probe" tags

abbrev pub recon_tag : List String → Bool
recon_tag tags = elem "admin_panel_enumeration" tags || elem "sensitive_path_discovery" tags

credential_ne_probe : ◌≢◌ {A = String} "credential" "probe"
credential_ne_probe = ground (arith, eq_iff "credential" "probe")

credential_ne_recon : ◌≢◌ {A = String} "credential" "recon"
credential_ne_recon = ground (arith, eq_iff "credential" "recon")

credential_ne_scan : ◌≢◌ {A = String} "credential" "scan"
credential_ne_scan = ground (arith, eq_iff "credential" "scan")

probe_ne_recon : ◌≢◌ {A = String} "probe" "recon"
probe_ne_recon = ground (arith, eq_iff "probe" "recon")

probe_ne_scan : ◌≢◌ {A = String} "probe" "scan"
probe_ne_scan = ground (arith, eq_iff "probe" "scan")

recon_ne_scan : ◌≢◌ {A = String} "recon" "scan"
recon_ne_scan = ground (arith, eq_iff "recon" "scan")

-- The chain of tests of `classify_event`, over the tests' results.
abbrev class_of : Bool → Bool → Bool → Bool → String
class_of c p r s =
    if c
    then "credential"
    else if p
    then "probe"
    else if r
    then "recon"
    else if s
    then "scan"
    else "probe"

unfold_classes :
    (c p r s : Bool)
    → ((class_of c p r s ≡ "credential") ↔ (c ≡ true))
      × ((class_of c p r s ≡ "recon") ↔ (((c || p) ≡ false) × (r ≡ true)))
      × ((class_of c p r s ≡ "scan") ↔ (((c || (p || r)) ≡ false) × (s ≡ true)))
unfold_classes c p r s = (
  (
    λ h. ground (arith, credential_ne_probe, credential_ne_recon, credential_ne_scan),
    λ h. ground arith,
  ),
  (λ h. ground (arith, credential_ne_recon, probe_ne_recon, recon_ne_scan), λ h. ground arith),
  (λ h. ground (arith, credential_ne_scan, probe_ne_scan, recon_ne_scan), λ h. ground arith),
)

-- When an event has each class: credential tags come before probe tags, these before
-- reconnaissance tags, and only an event with none of them is a scan, if it is suspicious.
pub classify_event_iff :
    (event : IngestEventIn) (tags : List String)
    → let class = classify_event event tags in
      ((class ≡ "credential") ↔ (credential_tag tags ≡ true))
      × ((class ≡ "recon")
          ↔ (((credential_tag tags || probe_tag tags) ≡ false) × (recon_tag tags ≡ true)))
      × ((class ≡ "scan") ↔ (
          ((credential_tag tags || (probe_tag tags || recon_tag tags)) ≡ false)
          × (event.suspicious ≡ true)))
unfolding classify_event
classify_event_iff event tags =
    unfold_classes (credential_tag tags) (probe_tag tags) (recon_tag tags) event.suspicious

-- The last of six tests passed.
earned_last :
    (a b c d e : Bool)
    → elem "credential_bruteforce" (
        add_if a "sensitive_path_discovery"
        ++ (add_if b "admin_panel_enumeration"
            ++ (add_if c "path_traversal_probe"
                ++ (add_if d "xss_probe"
                    ++ (add_if e "sqli_probe" ++ "credential_bruteforce" ∷ [])))))
      ≡ true
earned_last a b c d e = ground arith

pub earned_login :
    (event : IngestEventIn)
    → upper event.method ≡ "POST"
    → event.path ≡ "/login"
    → elem "credential_bruteforce" (earned_tags event) ≡ true
unfolding earned_tags
earned_login event post login =
    rw ((eq_iff _ _).1 post, (eq_iff _ _).1 login) (earned_last _ _ _ _ _)

-- A login attempt, whatever the spelling of its method, gets the tag "credential_bruteforce" and
-- the class "credential".
pub login_is_credential :
    (event : IngestEventIn)
    → upper event.method ≡ "POST"
    → event.path ≡ "/login"
    → (elem "credential_bruteforce" (normalize_tags event) ≡ true)
      × (classify_event event (normalize_tags event) ≡ "credential")
login_is_credential event post login =
    let tagged =
      elem-normalize_tags "credential_bruteforce" event (earned_login event post login) in
    (tagged, (classify_event_iff event (normalize_tags event)).0.1 (rw tagged refl))
