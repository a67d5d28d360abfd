-- ===== src/Api/Keys.antt =====
-- Who may write, by require_ingest_key of ingest_api/security.py and the routes of ingest_api/main.py.
use unikernal_honeynet.Base.{
  String, true, false, Option, none, some, Bool-cases, str_eq, ap, ◌≢◌, ◌≡◌, refl, ◌↔◌, ◌⊎◌, inl,
  inr, arith, eq_iff, truthy,
}
use unikernal_honeynet.Schemas.{IngestEventIn, Settings}
use unikernal_honeynet.Models.{Db}
use unikernal_honeynet.Session.{Engine}
use unikernal_honeynet.Api.{
  unauthorized, has_text, require_ingest_key, ingest_event, legacy_ingest_event,
}

admitted :
    (settings : Settings) (given : Option String)
    → require_ingest_key settings given ≡ true
    → (given ≡ some settings.ingest_api_key)
      ⊎ ((settings.allow_legacy_unauthenticated_ingest ≡ true) × (has_text given ≡ false))
unfolding require_ingest_key
admitted settings none h = inr (ground (arith, h))
admitted settings (some given) h = elim (Bool-cases (str_eq given settings.ingest_api_key)) [
  | inl e ↦ inl (ap some ((eq_iff given settings.ingest_api_key).0 e))
  | inr e ↦ inr (ground (arith, h, e))
]

admits :
    (settings : Settings) (given : Option String)
    → (given ≡ some settings.ingest_api_key)
      ⊎ ((settings.allow_legacy_unauthenticated_ingest ≡ true) × (has_text given ≡ false))
    → require_ingest_key settings given ≡ true
unfolding require_ingest_key
admits settings given (inl e) =
    rw e (ground (arith, eq_iff settings.ingest_api_key settings.ingest_api_key))
admits settings given (inr h) = rw (h.0, h.1) refl

-- A request is let in exactly if it carries the key, or the settings allow requests without one and
-- it carries none or the empty one.
pub require_ingest_key_iff :
    (settings : Settings) (given : Option String)
    → (require_ingest_key settings given ≡ true) ↔ (
        (given ≡ some settings.ingest_api_key)
        ⊎ ((settings.allow_legacy_unauthenticated_ingest ≡ true) × (has_text given ≡ false)))
require_ingest_key_iff settings given = (admitted settings given, admits settings given)

refused :
    (settings : Settings) (wrong : String)
    → truthy wrong ≡ true
    → wrong ≢ settings.ingest_api_key
    → require_ingest_key settings (some wrong) ≡ false
unfolding require_ingest_key
refused settings wrong t w = ground (arith, t, w, eq_iff wrong settings.ingest_api_key)

-- A request with a wrong key, that is not empty, is answered with 401 by the route of the API and
-- changes nothing; the older route handles it as if it had the key, whatever the settings are.
pub wrong_key_stores :
    (settings : Settings) (engine : Engine) (wrong : String) (payload : IngestEventIn) (db : Db)
    → truthy wrong ≡ true
    → wrong ≢ settings.ingest_api_key
    → (ingest_event settings engine (some wrong) payload db ≡ (unauthorized, db))
      × (legacy_ingest_event settings engine (some wrong) payload db
          ≡ ingest_event settings engine (some settings.ingest_api_key) payload db)
unfolding ingest_event legacy_ingest_event
wrong_key_stores settings engine wrong payload db t w =
    let shut : require_ingest_key settings (some wrong) ≡ false = refused settings wrong t w in
    (rw shut refl, rw (admits settings (some settings.ingest_api_key) (inl refl)) refl)
