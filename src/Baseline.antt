-- ===== src/Baseline.antt =====
-- container-baseline/app.py: the decoy that runs in a container. A request is what Flask has read of
-- it; requests.post is called with the report, and what it raises is dropped (send_event).
pub mod Pages
pub mod Received
pub mod Distinct
pub mod Reports
use unikernal_honeynet.Base.{
  String, Bool, true, false, ◌&&◌, ◌||◌, not, List, [], ◌∷◌, ◌++◌, Option, none, some, str_eq,
  if◌then◌else◌, get_or, strip, lower, contains, join, ◌<>◌, elem, filter, truthy,
}

-- The markers of suspicious requests and their tags, in their order.
abbrev pub suspicious_markers : List (String × String)
suspicious_markers =
    ("union select", "sqli_probe")
    ∷ ("<script>", "xss_probe")
    ∷ ("../", "traversal_probe")
    ∷ ("wget", "command_probe")
    ∷ ("curl", "command_probe")
    ∷ ("cmd=", "command_probe")
    ∷ (".env", "secret_probe")
    ∷ ("phpmyadmin", "phpmyadmin_probe")
    ∷ []

pub record Profile : Type 0 where
  pub title : String
  pub banner : String
  pub label : String

abbrev pub router_profile : Profile
router_profile = record {
  title = "EdgeRouter X";
  banner = "Core Gateway Console";
  label = "WAN routing node";
}

-- `PROFILES.get(name, PROFILES["router"])`
unfoldable pub profile_named : String → Profile
profile_named name =
    if str_eq name "nvr"
    then record {
      title = "SecureVision NVR";
      banner = "Camera management portal";
      label = "CCTV storage controller";
    }
    else if str_eq name "admin"
    then record {
      title = "Internal Control Panel";
      banner = "Restricted operations panel";
      label = "Enterprise operations portal";
    }
    else router_profile

-- The process's environment variables.
abbrev pub Environ : Type 0
Environ = String → Option String

pub record Config : Type 0 where
  pub profile : String
  pub decoy_id : String
  pub title : String
  pub hostname : String
  pub label : String
  pub banner : String

-- os.environ.get(first, os.environ.get(second, default))
abbrev pub environ_get : Environ → String → String → String → String
environ_get environ first second default = get_or (environ first) (get_or (environ second) default)

unfoldable pub config : Environ → Config
unfolding profile_named
config environ =
    let profile_name =
      lower (strip (environ_get environ "BASELINE_PROFILE" "DECOY_PROFILE" "router")) in
    let profile = profile_named profile_name in
    record {
      profile = profile_name;
      decoy_id = environ_get environ "BASELINE_ID" "DECOY_ID" "docker-baseline-01";
      title = environ_get environ "BASELINE_TITLE" "DECOY_TITLE" profile.title;
      hostname = environ_get environ "BASELINE_HOSTNAME" "DECOY_HOSTNAME" "docker-node-01";
      label = environ_get environ "BASELINE_LABEL" "DECOY_LABEL" profile.label;
      banner = profile.banner;
    }

-- The text that is searched for markers.
unfoldable pub haystack_of : List String → String
haystack_of chunks = lower (join " " (filter truthy chunks))

unfoldable pub tags_in : String → List (String × String) → List String → List String
tags_in haystack [] tags = tags
tags_in haystack ((marker, tag) ∷ rest) tags =
    tags_in haystack rest
      (if contains marker haystack && not (elem tag tags) then tags ++ tag ∷ [] else tags)

abbrev pub is_empty : List String → Bool
is_empty [] = true
is_empty (tag ∷ tags) = false

-- The tags of `detect_suspicious`; its flag is their truth value.
unfoldable pub detect_suspicious : List String → Bool × List String
detect_suspicious chunks =
    let tags = tags_in (haystack_of chunks) suspicious_markers [] in (not (is_empty tags), tags)

-- What a handler reads of its request: `body_text` is what get_data answers there.
pub record Request : Type 0 where
  pub method : String
  pub query_string : String
  pub body_text : String
  pub form_username : Option String
  pub form_password : Option String
  pub forwarded_for : Option String
  pub remote_addr : Option String
  pub user_agent : Option String

pub record Report : Type 0 where
  pub ts : String
  pub decoy_id : String
  pub profile : String
  pub src_ip : String
  pub method : String
  pub path : String
  pub user_agent : String
  pub username : String
  pub password : String
  pub suspicious : Bool
  pub tags : List String

-- `tags.append(tag)` unless the list has the tag.
abbrev pub add_tag : String → List String → List String
add_tag tag tags = if elem tag tags then tags else tags ++ tag ∷ []

abbrev pub is_panel : String → Bool
is_panel path = elem path ("/admin" ∷ "/config" ∷ "/status" ∷ [])

abbrev pub is_known : String → Bool
is_known path = elem path ("/" ∷ "/login" ∷ "/admin" ∷ "/config" ∷ "/status" ∷ [])

-- The tags of the path, after those that were detected.
unfoldable pub with_path_tags : String → String → List String → List String
with_path_tags method path tags =
    let login =
      if str_eq path "/login" && str_eq method "POST"
      then add_tag "credential_guess" (add_tag "login_attempt" tags)
      else tags in
    let panel = if is_panel path then add_tag "panel_probe" login else login in
    if is_known path then panel else add_tag "unknown_path" panel

-- The parts of a request that are searched for markers.
abbrev pub chunks_of : Request → String → String → String → List String
chunks_of request path username password =
    path ∷ request.query_string ∷ request.body_text ∷ username ∷ password ∷ []

-- `request.headers.get("X-Forwarded-For", request.remote_addr or "unknown")`
abbrev pub source_of : Request → String
source_of request =
    get_or request.forwarded_for
      (if truthy (get_or request.remote_addr "") then get_or request.remote_addr "" else "unknown")

unfoldable pub build_event : Environ → String → Request → String → String → String → String → Report
build_event environ utc_now request method path username password =
    let cfg = config environ in
    let detected = detect_suspicious (chunks_of request path username password) in
    let tags = with_path_tags method path detected.1 in
    record {
      ts = utc_now;
      decoy_id = cfg.decoy_id;
      profile = cfg.profile;
      src_ip = source_of request;
      method = method;
      path = path;
      user_agent = get_or request.user_agent "";
      username = username;
      password = password;
      suspicious = detected.0 || elem "unknown_path" tags;
      tags = tags;
    }
