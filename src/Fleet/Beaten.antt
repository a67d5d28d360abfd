-- ===== src/Fleet/Beaten.antt =====
-- upsert_heartbeat of ingest_api/services.py: the row that a heartbeat leaves in the table of decoys.
use unikernal_honeynet.Base.{
  ℕ, String, Bool, true, false, ◌&&◌, List, [], ◌∷◌, Option, none, some, ◌≡◌, ◌∙◌, arith, str_eq,
  eq_iff, ◌==◌, any, any-append, get_or,
}
use unikernal_honeynet.Schemas.{Settings, HeartbeatIn}
use unikernal_honeynet.Models.{Db, Decoy, Deployment, Health, healthy}
use unikernal_honeynet.Columns.{heartbeat_fits}
use unikernal_honeynet.Session.{ok, one_or_none, update_where, Engine}
use unikernal_honeynet.Session.Total.{
  Runs, Runs-pure, Runs-bind, Runs-modify, Runs-insert_unique, gets_then, fresh_then, flush_then,
  require_then,
}
use unikernal_honeynet.Session.Keys.{has_key, with_key, Found, one_by_key}
use unikernal_honeynet.Fleet.Rows.{
  decoy_key, find_decoy, add_decoy, write_decoy, find_deployment, add_deployment, write_deployment,
}
use unikernal_honeynet.Fleet.Step.{HasUnique}
use unikernal_honeynet.Fleet.Heartbeat.{
  beating_decoy, beaten_decoy, beat_found, beat_deployment, upsert_heartbeat,
}
use unikernal_honeynet.Fleet.Valid.{reconcile-Runs}

abbrev is_healthy : Health → Bool
is_healthy healthy = true
is_healthy _ = false

abbrev is_at : ℕ → Option ℕ → Bool
is_at ts none = false
is_at ts (some t) = t == ts

-- The row is the heartbeat's decoy, healthy, with the time as its last heartbeat.
abbrev pub is_beaten : ℕ → HeartbeatIn → Decoy → Bool
is_beaten ts p row =
    str_eq row.decoy_id p.decoy_id && is_healthy row.health_status && is_at ts row.last_heartbeat_at

-- The table has such a row.
abbrev pub HasBeaten : ℕ → HeartbeatIn → Db → Type 0
HasBeaten ts p d = any (is_beaten ts p) d.decoys ≡ true

abbrev has_row : ℕ → String → List Decoy → Bool
has_row id k = any λ row. row.id == id && str_eq row.decoy_id k

has_row-with_key :
    (id : ℕ) (k : String) (rows : List Decoy)
    → any (λ (row : Decoy). row.id == id) (with_key decoy_key k rows) ≡ true
    → has_row id k rows ≡ true
has_row-with_key id k [] h = h
has_row-with_key id k (x ∷ rows) h = ground (arith, h, has_row-with_key id k rows)

has_found :
    (rows : List Decoy) (row : Decoy) (s d : Db)
    → one_or_none rows s ≡ ok (some row, d)
    → any (λ (r : Decoy). r.id == row.id) rows ≡ true
unfolding one_or_none
has_found [] row s d h = absurd (cc h)
has_found (x ∷ []) row s d h = ground (arith, h)
has_found (x ∷ y ∷ rows) row s d h = absurd (cc h)

abbrev IsTabled : String → Db → Option Decoy → Type 0
IsTabled k s none = Unit
IsTabled k s (some row) = has_row row.id k s.decoys ≡ true

row_of :
    (k : String) (s d : Db) (o : Option Decoy)
    → one_or_none (with_key decoy_key k s.decoys) s ≡ ok (o, d)
    → IsTabled k s o
row_of k s d none h = tt
row_of k s d (some row) h =
    has_row-with_key row.id k s.decoys (has_found (with_key decoy_key k s.decoys) row s d h)

find_row-Runs :
    (k : String) (s : Db)
    → HasUnique s
    → Runs (find_decoy k) s (λ o d. Found decoy_key k s.decoys s o d × IsTabled k s o)
unfolding find_decoy
find_row-Runs k s u =
    let r = one_by_key decoy_key k s.decoys s u in
    gets_then _ _ (record {
      result = r.result;
      after = r.after;
      runs = r.runs;
      holds = (r.holds, row_of k s r.after r.result r.runs);
    })

beaten_update :
    (ts : ℕ) (p : HeartbeatIn) (id : ℕ) (rows : List Decoy)
    → has_row id p.decoy_id rows ≡ true
    → any (is_beaten ts p) (update_where (λ row. row.id == id) (beaten_decoy ts p) rows) ≡ true
unfolding update_where beaten_decoy
beaten_update ts p id [] h = h
beaten_update ts p id (x ∷ rows) h = ground (arith, h, beaten_update ts p id rows)

add_decoy-HasBeaten :
    (ts : ℕ) (p : HeartbeatIn) (decoy : Decoy) (s : Db)
    → has_key decoy_key decoy.decoy_id s.decoys ≡ false
    → is_beaten ts p decoy ≡ true
    → Runs (add_decoy decoy) s (λ _ d. HasBeaten ts p d)
add_decoy-HasBeaten ts p decoy s new good =
    let r =
      Runs-insert_unique decoy_key decoy s.decoys (λ rows d. record d { decoys = rows }) s
        (λ _ d. HasBeaten ts p d) new
        (any-append (is_beaten ts p) s.decoys (decoy ∷ []) ∙ ground (arith, good)) in
    unfold add_decoy in
    record { result = r.result; after = r.after; runs = r.runs; holds = r.holds }

beat_found-HasBeaten :
    (settings : Settings) (ts : ℕ) (p : HeartbeatIn) (s d : Db) (o : Option Decoy)
    → Found decoy_key p.decoy_id s.decoys s o d
    → IsTabled p.decoy_id s o
    → Runs (beat_found settings ts p o) d (λ _ e. HasBeaten ts p e)
unfolding beat_found write_decoy beating_decoy beaten_decoy
beat_found-HasBeaten settings ts p s d none g m = rw g.0 (
    fresh_then _ (
      Runs-bind _ _
        (add_decoy-HasBeaten ts p (beating_decoy settings s.next_id ts p) _ g.1
          (ground (arith, eq_iff p.decoy_id p.decoy_id)))
        λ _ e h. flush_then _ (Runs-pure _ _ _ h)))
beat_found-HasBeaten settings ts p s d (some row) g m = rw g.0 (
    Runs-bind _ _ (Runs-modify _ s (λ _ e. HasBeaten ts p e) (beaten_update ts p row.id s.decoys m))
      λ _ e h. Runs-pure _ e _ h)

beat_deployment-HasBeaten :
    (ts : ℕ) (decoy : Decoy) (p : HeartbeatIn) (found : Option Deployment) (s : Db)
    → HasBeaten ts p s
    → Runs (beat_deployment decoy p found) s (λ _ d. HasBeaten ts p d)
unfolding beat_deployment add_deployment write_deployment
beat_deployment-HasBeaten ts decoy p none s h = fresh_then _ (Runs-modify _ _ _ h)
beat_deployment-HasBeaten ts decoy p (some row) s h = Runs-modify _ s _ h

-- A heartbeat leaves its decoy's row healthy, with the heartbeat's time.
pub upsert_heartbeat-HasBeaten :
    (settings : Settings) (engine : Engine) (p : HeartbeatIn) (s : Db)
    → heartbeat_fits p ≡ true
    → HasUnique s
    → Runs (upsert_heartbeat settings engine p) s (λ _ d. HasBeaten (get_or p.ts engine.now) p d)
unfolding upsert_heartbeat find_deployment
upsert_heartbeat-HasBeaten settings engine p s fit u =
    let ts = get_or p.ts engine.now in
    Runs-bind _ _ (reconcile-Runs settings engine s u) λ _ a ha.
      Runs-bind _ _ (find_row-Runs p.decoy_id a ha.0.unique) λ o b g. require_then _ _ fit (
        Runs-bind _ _ (beat_found-HasBeaten settings ts p a b o g.0 g.1) λ decoy c h.
          gets_then _ _ (
            Runs-bind _ _ (beat_deployment-HasBeaten ts decoy p _ c h)
              λ _ e k. flush_then _ (Runs-pure decoy _ _ k)))
