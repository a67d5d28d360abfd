-- ===== src/Baseline/Received.antt =====
-- A report of container-baseline/app.py as a payload of the ingest API (ingest_api/schemas.py): the
-- fields that it has not are the defaults, and the method is in upper case.
use unikernal_honeynet.Base.{
  String, true, [], Option, none, some, ◌≡◌, refl, elem, upper, str_eq, eq_iff, get_or,
}
use unikernal_honeynet.Schemas.{Moment, IngestEventIn}
use unikernal_honeynet.Tags.{normalize_tags, classify_event}
use unikernal_honeynet.Tags.Class.{login_is_credential}
use unikernal_honeynet.Baseline.{Environ, Request, Report, build_event}
use unikernal_honeynet.Baseline.Pages.{Handled, login}

-- The payload, where `ts` is the time that the report's text gives.
unfoldable pub received : Option Moment → Report → IngestEventIn
received ts report = record {
  event_id = none;
  ts = ts;
  decoy_id = report.decoy_id;
  profile = report.profile;
  src_ip = some report.src_ip;
  method = upper report.method;
  path = report.path;
  user_agent = report.user_agent;
  username = report.username;
  password = report.password;
  suspicious = report.suspicious;
  tags = report.tags;
  normalized_tags = [];
  collector_version = none;
  edge_node_id = none;
  decoy_version = none;
  status_code = none;
  latency_ms = none;
  headers_subset = none;
  public_endpoint = none;
  request_fingerprint = none;
  source_country = none;
  event_class = none;
  site = none;
  environment = none;
  coverage_role = none;
}

-- What a handler's answer and report say of a login attempt.
abbrev pub IsLogin : Request → Option Moment → Handled → Type 0
IsLogin request ts handled =
    let payload = received ts handled.sent in
    (handled.status ≡ 401)
    × (payload.username ≡ get_or request.form_username "")
    × (payload.password ≡ get_or request.form_password "")
    × (elem "credential_bruteforce" (normalize_tags payload) ≡ true)
    × (classify_event payload (normalize_tags payload) ≡ "credential")

post_method : upper (upper "POST") ≡ "POST"
unfolding upper
post_method = refl

built :
    (environ : Environ) (utc_now : String) (request : Request) (ts : Option Moment)
    (username password : String)
    → let payload =
        received ts (build_event environ utc_now request "POST" "/login" username password) in
      (payload.username ≡ username)
      × (payload.password ≡ password)
      × (elem "credential_bruteforce" (normalize_tags payload) ≡ true)
      × (classify_event payload (normalize_tags payload) ≡ "credential")
unfolding received build_event
built environ utc_now request ts username password =
    let payload =
      received ts (build_event environ utc_now request "POST" "/login" username password) in
    let h = login_is_credential payload post_method refl in (refl, refl, h.0, h.1)

-- A POST to the decoy's login page is refused with 401, and the report of it carries the form's user
-- name and password, empty where the form has none; the ingest API gives it the tag
-- credential_bruteforce and the class credential.
pub login_reported :
    (environ : Environ) (utc_now : String) (request : Request) (ts : Option Moment)
    → request.method ≡ "POST"
    → IsLogin request ts (login environ utc_now request)
unfolding login
login_reported environ utc_now request ts post =
    let is_post : str_eq request.method "POST" ≡ true = (eq_iff request.method "POST").1 post in
    let r =
      built environ utc_now request ts (get_or request.form_username "")
        (get_or request.form_password "") in
    rw is_post (refl, r.0, r.1, r.2, r.3)
