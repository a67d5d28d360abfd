-- ===== src/Columns.antt =====
-- ingest_api/models.py: what the columns take of an event's payload.
use Prim.Native.Char.{code}
use unikernal_honeynet.Base.{
  ℕ, zero, suc, String, Bool, true, false, ◌&&◌, not, Option, none, some, ◌==◌, ltb,
}
use unikernal_honeynet.Schemas.{HeartbeatIn}
use unikernal_honeynet.Payload.{Normalized}

-- `String(n)`: n characters at most, and none of them the null character.
unfoldable pub fits : ℕ → String → Bool
fits n String.[] = true
fits zero (String.◌∷◌ c s) = false
fits (suc n) (String.◌∷◌ c s) = not (code c == 0) && fits n s

-- `Text`
unfoldable pub is_text : String → Bool
is_text String.[] = true
is_text (String.◌∷◌ c s) = not (code c == 0) && is_text s

-- A nullable `String(n)`.
abbrev pub fits_option : ℕ → Option String → Bool
fits_option n none = true
fits_option n (some s) = fits n s

-- `Integer`
abbrev pub is_integer : ℕ → Bool
is_integer n = ltb n 2_147_483_648

-- The columns of decoys, deployments, events and credentials that a payload's values are put in.
unfoldable pub columns_fit : Normalized → Bool
unfolding fits is_text
columns_fit n =
    fits 128 n.event_id
    && fits 128 n.decoy_id
    && fits 64 n.profile
    && fits 128 n.edge_node_id
    && fits 64 n.decoy_version
    && fits 64 n.collector_version
    && fits 128 n.site
    && fits 64 n.environment
    && fits 32 n.coverage_role
    && fits 128 n.src_ip
    && fits_option 64 n.source_country
    && fits 16 n.method
    && fits 255 n.path
    && fits 128 n.request_fingerprint
    && fits 32 n.event_class
    && fits 255 n.username
    && fits 255 n.password
    && fits_option 255 n.public_endpoint
    && is_text n.user_agent
    && is_integer n.status_code
    && is_integer n.latency_ms

-- The columns of decoys and deployments that a heartbeat's values are put in.
unfoldable pub heartbeat_fits : HeartbeatIn → Bool
unfolding fits
heartbeat_fits p =
    fits 128 p.decoy_id
    && fits 64 p.profile
    && fits 128 p.edge_node_id
    && fits 64 p.decoy_version
    && fits_option 64 p.collector_version
    && fits_option 255 p.public_endpoint
    && fits 128 p.site
    && fits 64 p.environment
    && fits 32 p.coverage_role
    && fits 64 p.runtime_state
