-- ===== src/Analysts.antt =====
-- ingest_api/security.py, require_analyst_identity, and what analysts change (ingest_api/main.py).
pub mod Users
use unikernal_honeynet.Base.{
  ℕ, String, ◌&&◌, List, [], ◌∷◌, Option, none, some, str_eq, if◌then◌else◌, truthy, get_or, ◌==◌,
  filter,
}
use unikernal_honeynet.Schemas.{DetectionUpdateIn, Settings}
use unikernal_honeynet.Models.{Db, User, Detection}
use unikernal_honeynet.Session.{
  Exec, pure, ◌>>=◌, ◌>>◌, gets, modify, one, one_or_none, update_where, insert_unique, fresh_id,
  Engine,
}
use unikernal_honeynet.Session.Keys.{with_key}
use unikernal_honeynet.Api.{has_text}

pub record AnalystIdentity : Type 0 where
  pub subject : String
  pub email : Option String
  pub display_name : Option String

-- The claims of a token that the OIDC library accepted.
pub record Claims : Type 0 where
  pub sub : Option String
  pub email : Option String
  pub name : Option String
  pub preferred_username : Option String

-- `a or b` on optional texts.
abbrev pub or_name : Option String → Option String → Option String
or_name none other = other
or_name (some s) other = if str_eq s "" then other else some s

-- A missing `sub` is the text of None.
unfoldable pub identity_of : Claims → AnalystIdentity
identity_of claims = record {
  subject = get_or claims.sub "None";
  email = claims.email;
  display_name = or_name claims.name claims.preferred_username;
}

abbrev pub dev_analyst : AnalystIdentity
dev_analyst = record {
  subject = "dev-analyst";
  email = some "dev@example.com";
  display_name = some "Development Analyst";
}

abbrev pub decoded : Option Claims → Option AnalystIdentity
decoded none = none
decoded (some claims) = some (identity_of claims)

-- Whom a token names: none is the answer 401. `decode` is `_decode_oidc_token`, none if it raises.
unfoldable pub identify : Settings → (String → Option Claims) → String → Option AnalystIdentity
identify settings decode token =
    if has_text settings.oidc_issuer_url && has_text settings.oidc_audience
    then decoded (decode token)
    else if str_eq token settings.analyst_bearer_token
    then some dev_analyst
    else none

unfoldable pub identify_credentials :
    Settings → (String → Option Claims) → Option String → Option AnalystIdentity
identify_credentials settings decode none = none
identify_credentials settings decode (some token) = identify settings decode token

abbrev pub user_key : User → String
user_key user = user.subject

unfoldable pub new_user : ℕ → ℕ → AnalystIdentity → User
new_user id now identity = record {
  id = id;
  subject = identity.subject;
  email = identity.email;
  display_name = identity.display_name;
  last_login_at = now;
}

unfoldable pub user_found : Engine → AnalystIdentity → Option User → Exec (Unit {0})
user_found engine identity none = do
  id ← fresh_id
  rows ← gets (λ db. db.users)
  insert_unique user_key (new_user id engine.now identity) rows
      (λ rows' db. record db { users = rows' })
user_found engine identity (some user) = modify λ db. record db {
  users =
      update_where (λ row. row.id == user.id)
        (λ row. record row {
          email = identity.email;
          display_name = identity.display_name;
          last_login_at = engine.now;
        })
        db.users;
}

unfoldable pub log_in : Engine → Option AnalystIdentity → Exec (Option AnalystIdentity)
log_in engine none = pure none
log_in engine (some identity) = do
  rows ← gets (λ db. with_key user_key identity.subject db.users)
  found ← one_or_none rows
  user_found engine identity found
  pure (some identity)

-- `require_analyst_identity`: none is the answer 401.
unfoldable pub require_analyst_identity :
    Settings → (String → Option Claims) → Engine → Option String → Exec (Option AnalystIdentity)
require_analyst_identity settings decode engine credentials =
    log_in engine (identify_credentials settings decode credentials)

-- The fields that a request gives replace those of a detection.
unfoldable pub updated_detection : DetectionUpdateIn → Detection → Detection
updated_detection request row = record row {
  status = get_or request.status row.status;
  assigned_to = elim request.assigned_to [ none ↦ row.assigned_to | some name ↦ some name ];
  triage_notes = elim request.triage_notes [ none ↦ row.triage_notes | some notes ↦ some notes ];
}

-- PATCH /api/v1/detections/{detection_id}
unfoldable pub update_detection : ℕ → DetectionUpdateIn → Exec Detection
update_detection id request = do
  rows ← gets (λ db. filter (λ row. row.id == id) db.detections)
  row ← one rows
  modify (λ db. record db {
    detections =
        update_where (λ other. other.id == row.id) (updated_detection request) db.detections;
  })
  pure (updated_detection request row)
