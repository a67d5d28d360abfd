-- ===== src/Analysts/Users.antt =====
-- require_analyst_identity of ingest_api/security.py: who is let in, and the row of each analyst.
use unikernal_honeynet.Base.{
  sym, subst, Bool-cases, inl, inr, ◌⊎◌, false≢true, str_eq, if◌then◌else◌, suc, String, Bool, true,
  false, Option, none, some, ◌≡◌, refl, ◌∙◌, arith, eq_iff, ◌==◌,
}
use unikernal_honeynet.Api.{has_text}
use unikernal_honeynet.Schemas.{Settings}
use unikernal_honeynet.Models.{Db, User}
use unikernal_honeynet.Session.{Engine}
use unikernal_honeynet.Session.Total.{
  Runs-weaken, Runs, Runs-pure, Runs-bind, gets_then, fresh_then, Runs-modify, Runs-insert_unique,
}
use unikernal_honeynet.Session.Keys.{
  IsUnique, IsUnique-append, IsUnique-update_where, has_key, has_key-append, has_key-update_where,
  Found_cases, one_by_key,
}
use unikernal_honeynet.Analysts.{
  identify, identity_of, decoded, dev_analyst, AnalystIdentity, Claims, identify_credentials,
  user_key, new_user, user_found, log_in, require_analyst_identity,
}

-- The analyst has a row, no row is lost, subjects stay unique, and no other table changes.
abbrev pub LoggedIn : Db → String → Db → Type 0
LoggedIn s subject d =
    IsUnique user_key d.users
    × (has_key user_key subject d.users ≡ true)
    × ((k : String) → has_key user_key k s.users ≡ true → has_key user_key k d.users ≡ true)
    × (d.detections ≡ s.detections)
    × (d.events ≡ s.events)

abbrev pub Answer : Db → Option AnalystIdentity → Db → Type 0
Answer s none d = d ≡ s
Answer s (some identity) d = LoggedIn s identity.subject d

user_found-new :
    (engine : Engine) (identity : AnalystIdentity) (s : Db)
    → IsUnique user_key s.users
    → has_key user_key identity.subject s.users ≡ false
    → Runs (user_found engine identity none) s (λ _ d. LoggedIn s identity.subject d)
unfolding user_found new_user
user_found-new engine identity s u new =
    let row = new_user s.next_id engine.now identity in
    fresh_then _ (
      gets_then _ _ (
        Runs-insert_unique user_key row s.users (λ rows db. record db { users = rows })
          (record s { next_id = suc s.next_id }) (λ _ d. LoggedIn s identity.subject d) new
          (
            IsUnique-append user_key s.users row u new,
            has_key-append user_key identity.subject s.users row
                ∙ ground (arith, eq_iff identity.subject identity.subject),
            (λ k known. has_key-append user_key k s.users row ∙ ground (arith, known)),
            refl,
            refl,
          )))

user_found-known :
    (engine : Engine) (identity : AnalystIdentity) (user : User) (s : Db)
    → IsUnique user_key s.users
    → has_key user_key identity.subject s.users ≡ true
    → Runs (user_found engine identity (some user)) s (λ _ d. LoggedIn s identity.subject d)
unfolding user_found
user_found-known engine identity user s u known =
    let test : User → Bool = λ row. row.id == user.id in
    let f : User → User = λ row. record row {
      email = identity.email;
      display_name = identity.display_name;
      last_login_at = engine.now;
    } in
    Runs-modify _ s _ (
      IsUnique-update_where user_key test f (λ _. refl) s.users u,
      has_key-update_where user_key test f (λ _. refl) identity.subject s.users ∙ known,
      (λ k h. has_key-update_where user_key test f (λ _. refl) k s.users ∙ h),
      refl,
      refl,
    )

log_in-Runs :
    (engine : Engine) (o : Option AnalystIdentity) (s : Db)
    → IsUnique user_key s.users
    → Runs (log_in engine o) s (λ answer d. (answer ≡ o) × Answer s o d)
unfolding log_in
log_in-Runs engine none s u = Runs-pure none s _ (refl, refl)
log_in-Runs engine (some identity) s u = gets_then _ _ (
    Runs-bind _ _ (one_by_key user_key identity.subject s.users s u) λ o d g.
      Runs-bind _ _
        (Found_cases user_key identity.subject s.users s d o (user_found engine identity)
          (λ _ e. LoggedIn s identity.subject e) g (user_found-new engine identity s u)
          (λ row same known. user_found-known engine identity row s u known))
        λ _ e h. Runs-pure (some identity) e _ (refl, h))

module _ (settings : Settings) (decode : String → Option Claims) where
  -- The API trusts tokens of an OIDC issuer, and no other.
  abbrev pub IsOidc : Type 0
  IsOidc = (has_text settings.oidc_issuer_url ≡ true) × (has_text settings.oidc_audience ≡ true)

  -- The token is one of the issuer's, and carries the analyst's claims; or the settings name no issuer
  -- or no audience, the token is that of the settings, and the analyst is the development one.
  abbrev pub IsNamed : String → AnalystIdentity → Type 0
  IsNamed token identity =
      (IsOidc
        × ((claims : Claims) × (decode token ≡ some claims) × (identity ≡ identity_of claims)))
      ⊎ ((IsOidc → ⊥) × (token ≡ settings.analyst_bearer_token) × (identity ≡ dev_analyst))

  abbrev pub Names : Option String → AnalystIdentity → Type 0
  Names none identity = ⊥
  Names (some token) identity = IsNamed token identity

  -- The answer 401 changes nothing and is that to a token that names nobody; any other answer is that
  -- as the analyst whom the token names.
  abbrev pub Identified : Option String → Db → Option AnalystIdentity → Db → Type 0
  Identified credentials s none d =
      (d ≡ s) × ((identity : AnalystIdentity) → Names credentials identity → ⊥)
  Identified credentials s (some identity) d =
      Names credentials identity × LoggedIn s identity.subject d

  abbrev Named : String → Option AnalystIdentity → Type 0
  Named token none = (identity : AnalystIdentity) → IsNamed token identity → ⊥
  Named token (some identity) = IsNamed token identity

  named_by_issuer :
      (token : String) (found : Option Claims)
      → decode token ≡ found
      → IsOidc
      → Named token (decoded found)
  named_by_issuer token none e oidc = λ identity n. elim n [
    | inl (_, (claims, same, _)) ↦ cc (e, same)
    | inr (other, _, _) ↦ other oidc
  ]
  named_by_issuer token (some claims) e oidc = inl (oidc, (claims, e, refl))

  named_by_settings :
      (token : String)
      → (IsOidc → ⊥)
      → Named token (if str_eq token settings.analyst_bearer_token then some dev_analyst else none)
  named_by_settings token other = elim (Bool-cases (str_eq token settings.analyst_bearer_token)) [
    | inl e ↦ rw e (inr (other, (eq_iff token settings.analyst_bearer_token).0 e, refl))
    | inr e ↦ rw e (λ identity n. elim n [
      | inl (oidc, _) ↦ other oidc
      | inr (_, same, _) ↦ false≢true (sym e ∙ (eq_iff token settings.analyst_bearer_token).1 same)
    ])
  ]

  named : (token : String) → Named token (identify settings decode token)
  unfolding identify
  named token = elim (Bool-cases (has_text settings.oidc_issuer_url)) [
    | inl issuer ↦ elim (Bool-cases (has_text settings.oidc_audience)) [
      | inl audience ↦
          subst (Named token) (sym (rw (issuer, audience) refl))
            (named_by_issuer token (decode token) refl (issuer, audience))
      | inr audience ↦
          subst (Named token) (sym (rw (issuer, audience) refl))
            (named_by_settings token (λ oidc. false≢true (sym audience ∙ oidc.1)))
    ]
    | inr issuer ↦
        subst (Named token) (sym (rw issuer refl))
          (named_by_settings token (λ oidc. false≢true (sym issuer ∙ oidc.0)))
  ]

  with_answer :
      (token : String) (s d : Db) (o : Option AnalystIdentity)
      → Named token o
      → Answer s o d
      → Identified (some token) s o d
  with_answer token s d none n h = (h, n)
  with_answer token s d (some identity) n h = (n, h)

  identified :
      (credentials : Option String) (s : Db) (d : Db)
      → Answer s (identify_credentials settings decode credentials) d
      → Identified credentials s (identify_credentials settings decode credentials) d
  unfolding identify_credentials
  identified none s d h = (h, λ identity n. n)
  identified (some token) s d h =
      with_answer token s d (identify settings decode token) (named token) h

-- From a database with unique subjects, a request of an analyst is answered without an error of the
-- session. It is answered with 401, and no change, exactly if its token names nobody: with an OIDC
-- issuer and audience in the settings a token names whom its claims describe, if the issuer's keys
-- verify it, and without them the settings' token names the development analyst. Otherwise it is
-- answered as one whom the token names, who then has a row; no row is lost, subjects stay unique, and
-- detections and events are left alone.
pub require_analyst_identity-Runs :
    (settings : Settings) (decode : String → Option Claims) (engine : Engine)
    (credentials : Option String) (s : Db)
    → IsUnique user_key s.users
    → Runs
        (require_analyst_identity settings decode engine credentials)
        s
        (Identified settings decode credentials s)
unfolding require_analyst_identity
require_analyst_identity-Runs settings decode engine credentials s u =
    Runs-weaken (log_in-Runs engine (identify_credentials settings decode credentials) s u)
      λ answer d h.
        subst (λ o. Identified settings decode credentials s o d) (sym h.0)
          (identified settings decode credentials s d h.1)
