-- ===== src/Tags.antt =====
-- ingest_api/services.py: the tags, the class and the fingerprint of an event.
pub mod Normalized
pub mod Class
use Prim.Native.String.{count, slice}
use unikernal_honeynet.Base.{
  ℕ, String, Bool, true, false, ◌&&◌, ◌||◌, not, List, [], ◌∷◌, ◌++◌, Option, none, some, str_eq,
  if◌then◌else◌, strip, lower, upper, contains, join, ◌<>◌, elem, sorted_set, get_or, truthy,
}
use unikernal_honeynet.Schemas.{IngestEventIn}

abbrev pub sensitive_paths : List String
sensitive_paths = "/admin" ∷ "/config" ∷ "/status" ∷ "/.env" ∷ "/backup" ∷ "/phpmyadmin" ∷ []

-- The tags of the list that are not blank, stripped and in lower case.
pub cleaned : List String → List String
cleaned [] = []
cleaned (tag ∷ rest) =
    let others = cleaned rest in if truthy (strip tag) then lower (strip tag) ∷ others else others

-- The tag with its test's result: `if test: tags.add(tag)`.
abbrev pub add_if : Bool → String → List String
add_if test tag = if test then tag ∷ [] else []

-- `event.normalized_tags or event.tags`
pub given_tags : IngestEventIn → List String
given_tags event = elim event.normalized_tags [ [] ↦ event.tags | tag ∷ rest ↦ tag ∷ rest ]

lower_path : IngestEventIn → String
lower_path event = lower event.path

body_fields : IngestEventIn → String
unfolding lower_path
body_fields event = lower (join " " (event.username ∷ event.password ∷ lower_path event ∷ []))

-- The tags that the request itself earns, in the order of the source.
pub earned_tags : IngestEventIn → List String
unfolding lower_path body_fields
earned_tags event =
    let path = lower_path event in
    let body = body_fields event in
    add_if (elem event.path sensitive_paths) "sensitive_path_discovery"
    ++ (add_if (contains "/admin" path || contains "/config" path || contains "/status" path)
          "admin_panel_enumeration"
        ++ (add_if (contains "../" body) "path_traversal_probe"
            ++ (add_if (contains "<script>" body) "xss_probe"
                ++ (add_if (contains "union select" body) "sqli_probe"
                    ++ add_if (str_eq (upper event.method) "POST" && str_eq event.path "/login")
                        "credential_bruteforce"))))

-- `if not tags and event.suspicious: tags.add("internet_recon")`
with_recon : Bool → List String → List String
with_recon suspicious [] = add_if suspicious "internet_recon"
with_recon suspicious (tag ∷ rest) = tag ∷ rest

pub normalize_tags : IngestEventIn → List String
unfolding cleaned given_tags earned_tags with_recon
normalize_tags event =
    sorted_set (with_recon event.suspicious (cleaned (given_tags event) ++ earned_tags event))

pub classify_event : IngestEventIn → List String → String
classify_event event tags =
    if elem "credential_bruteforce" tags || elem "credential_stuffing" tags
    then "credential"
    else if elem "sqli_probe" tags || elem "xss_probe" tags || elem "path_traversal_probe" tags
    then "probe"
    else if elem "admin_panel_enumeration" tags || elem "sensitive_path_discovery" tags
    then "recon"
    else if event.suspicious
    then "scan"
    else "probe"

-- `text[:n]` in characters.
first_chars : ℕ → String → String
first_chars ℕ.zero s = ""
first_chars (ℕ.suc n) String.[] = ""
first_chars (ℕ.suc n) (String.◌∷◌ c s) = String.◌∷◌ c (first_chars n s)

-- `sha1_hex` is the hexadecimal SHA-1 digest of a text in UTF-8.
pub generate_request_fingerprint :
    (String → String) → String → String → String → List String → String
unfolding first_chars
generate_request_fingerprint sha1_hex method path user_agent tags = first_chars 24 (
    sha1_hex (
      upper method
      <> ("|" <> (path <> ("|" <> (first_chars 80 user_agent <> ("|" <> join "," tags)))))))
