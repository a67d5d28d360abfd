-- ===== src/Fleet/Reports.antt =====
-- upsert_decoy and upsert_heartbeat of ingest_api/services.py return from a database whose decoy ids are
-- unique, and the decoy that reported is there.
use unikernal_honeynet.Base.{
  true, arith, ℕ, suc, String, false, Option, none, some, ◌≡◌, refl, get_or,
}
use unikernal_honeynet.Schemas.{Settings, HeartbeatIn}
use unikernal_honeynet.Models.{Db, Decoy, Deployment, healthy}
use unikernal_honeynet.Session.{Exec, pure, ◌>>=◌, ◌>>◌, flush, Engine}
use unikernal_honeynet.Session.Total.{
  Runs-both, require_then, Runs, Runs-pure, Runs-bind, gets_then, fresh_then, Runs-weaken,
}
use unikernal_honeynet.Session.Keys.{has_key}
use unikernal_honeynet.Payload.{Normalized}
use unikernal_honeynet.Columns.{heartbeat_fits}
use unikernal_honeynet.Fleet.Beaten.{HasBeaten, upsert_heartbeat-HasBeaten}
use unikernal_honeynet.Fleet.Rows.{decoy_key, find_deployment, add_deployment}
use unikernal_honeynet.Fleet.Step.{
  FleetStep, HasUnique, FleetStep-trans, FleetStep-same, same_decoys,
}
use unikernal_honeynet.Fleet.Primitives.{
  HasDecoy, find_decoy_then, add_decoy-Runs, write_decoy-Runs, add_deployment-Runs,
  write_deployment-Runs, flush-Runs,
}
use unikernal_honeynet.Fleet.Report.{
  with_inventory, reported_decoy, merged_decoy, report_deployment, upsert_found, upsert_decoy,
}
use unikernal_honeynet.Fleet.Heartbeat.{
  beating_decoy, beaten_decoy, beat_found, beat_deployment, upsert_heartbeat,
}
use unikernal_honeynet.Fleet.Valid.{reconcile-Runs}

-- A new primary key, and what follows.
abbrev counted : Db → Db
counted s = same_decoys s s.deployments s.new_deployments (suc s.next_id)

counted-FleetStep : (s d : Db) → HasUnique s → FleetStep (counted s) d → FleetStep s d
counted-FleetStep s d u h =
    FleetStep-trans s (counted s) d (FleetStep-same s _ _ _ (omega arith) u) h

add_counted-Runs :
    (row : Deployment) (s : Db)
    → HasUnique s
    → Runs (add_deployment row) (counted s) (λ _ d. FleetStep s d)
add_counted-Runs row s u =
    Runs-weaken (add_deployment-Runs row (counted s) u) λ _ d h. counted-FleetStep s d u h

report_deployment-Runs :
    (decoy : Decoy) (n : Normalized) (found : Option Deployment) (s : Db)
    → HasUnique s
    → Runs (report_deployment decoy n found) s (λ _ d. FleetStep s d)
unfolding report_deployment
report_deployment-Runs decoy n none s u = fresh_then _ (add_counted-Runs _ s u)
report_deployment-Runs decoy n (some row) s u = write_deployment-Runs row.id _ s u

-- What both upserts end with.
flush-pure-Runs :
    {A : Type 0} (a : A) (k : String) (s d : Db)
    → FleetStep s d
    → HasDecoy k d
    → Runs (flush >> pure a) d (λ b e. FleetStep s e × HasDecoy k e × (b ≡ a))
flush-pure-Runs a k s d h known =
    Runs-bind flush _ (flush-Runs d h.unique)
      λ _ e g. Runs-pure a e _ (FleetStep-trans s d e h g, g.grows k known, refl)

abbrev pub Reported : Db → Normalized → Decoy × Normalized → Db → Type 0
Reported s n (decoy, n') d =
    FleetStep s d
    × HasDecoy n.decoy_id d
    × (decoy.decoy_id ≡ n.decoy_id)
    × (n'.event_id ≡ n.event_id)
    × (n' ≡ with_inventory decoy n)

upsert_none-Runs :
    (engine : Engine) (n : Normalized) (s : Db)
    → HasUnique s
    → has_key decoy_key n.decoy_id s.decoys ≡ false
    → Runs (upsert_found engine n none) s (Reported s n)
unfolding upsert_found reported_decoy with_inventory
upsert_none-Runs engine n s u new = fresh_then _ (
    Runs-bind _ _ (add_decoy-Runs (reported_decoy engine s.next_id n) (counted s) u new) λ _ d h.
      Runs-bind _ _ (report_deployment-Runs _ _ none d h.0.unique) λ _ e g.
        Runs-weaken
          (flush-pure-Runs _ n.decoy_id s e (FleetStep-trans s d e (counted-FleetStep s d u h.0) g)
            (g.grows _ h.1))
          λ r f k. (k.0, k.1, rw k.2 refl, rw k.2 refl, rw k.2 refl))

upsert_some-Runs :
    (engine : Engine) (n : Normalized) (row : Decoy) (s : Db)
    → HasUnique s
    → row.decoy_id ≡ n.decoy_id
    → HasDecoy n.decoy_id s
    → Runs (upsert_found engine n (some row)) s (Reported s n)
unfolding upsert_found merged_decoy with_inventory find_deployment
upsert_some-Runs engine n row s u same known =
    Runs-bind _ _ (write_decoy-Runs row.id (merged_decoy engine n) s (λ r. refl) u) λ _ d h.
      gets_then _ _ (
        Runs-bind _ _ (report_deployment-Runs _ _ _ d h.unique) λ _ e g.
          Runs-weaken
            (flush-pure-Runs _ n.decoy_id s e (FleetStep-trans s d e h g)
              (g.grows _ (h.grows _ known)))
            λ r f k. (k.0, k.1, rw k.2 same, rw k.2 refl, rw k.2 refl))

-- An event's decoy is found or made, whatever the fleet holds.
pub upsert_decoy-Runs :
    (engine : Engine) (n : Normalized) (s : Db)
    → HasUnique s
    → Runs (upsert_decoy engine n) s (Reported s n)
unfolding upsert_decoy
upsert_decoy-Runs engine n s u =
    find_decoy_then n.decoy_id s _ _ u (upsert_none-Runs engine n s u)
      (λ row same known. upsert_some-Runs engine n row s u same known)

beat_deployment-Runs :
    (decoy : Decoy) (p : HeartbeatIn) (found : Option Deployment) (s : Db)
    → HasUnique s
    → Runs (beat_deployment decoy p found) s (λ _ d. FleetStep s d)
unfolding beat_deployment
beat_deployment-Runs decoy p none s u = fresh_then _ (add_counted-Runs _ s u)
beat_deployment-Runs decoy p (some row) s u = write_deployment-Runs row.id _ s u

abbrev pub Beaten : Db → ℕ → HeartbeatIn → Decoy → Db → Type 0
Beaten s ts p decoy d =
    FleetStep s d
    × HasDecoy p.decoy_id d
    × (decoy.decoy_id ≡ p.decoy_id)
    × (decoy.health_status ≡ healthy)
    × (decoy.last_heartbeat_at ≡ some ts)

beat_none-Runs :
    (settings : Settings) (ts : ℕ) (p : HeartbeatIn) (s : Db)
    → HasUnique s
    → has_key decoy_key p.decoy_id s.decoys ≡ false
    → Runs (beat_found settings ts p none) s (Beaten s ts p)
unfolding beat_found beating_decoy
beat_none-Runs settings ts p s u new = fresh_then _ (
    Runs-bind _ _ (add_decoy-Runs (beating_decoy settings s.next_id ts p) (counted s) u new)
      λ _ d h.
        Runs-weaken (flush-pure-Runs _ p.decoy_id s d (counted-FleetStep s d u h.0) h.1)
          λ r f k. (k.0, k.1, rw k.2 refl, rw k.2 refl, rw k.2 refl))

beat_some-Runs :
    (settings : Settings) (ts : ℕ) (p : HeartbeatIn) (row : Decoy) (s : Db)
    → HasUnique s
    → row.decoy_id ≡ p.decoy_id
    → HasDecoy p.decoy_id s
    → Runs (beat_found settings ts p (some row)) s (Beaten s ts p)
unfolding beat_found beaten_decoy
beat_some-Runs settings ts p row s u same known =
    Runs-bind _ _ (write_decoy-Runs row.id (beaten_decoy ts p) s (λ r. refl) u)
      λ _ d h. Runs-pure _ d _ (h, h.grows _ known, same, refl, refl)

heartbeat_rest-Runs :
    (engine : Engine) (ts : ℕ) (p : HeartbeatIn) (s d : Db) (m : Exec Decoy)
    → FleetStep s d
    → Runs m d (Beaten d ts p)
    → Runs
        (m >>= λ decoy. find_deployment engine decoy.id >>= λ found.
          beat_deployment decoy p found >> (flush >> pure decoy))
        d
        (Beaten s ts p)
unfolding find_deployment
heartbeat_rest-Runs engine ts p s d m h r = Runs-bind m _ r λ decoy e k. gets_then _ _ (
    Runs-bind _ _ (beat_deployment-Runs decoy p _ e k.0.unique) λ _ f g.
      Runs-weaken
        (flush-pure-Runs decoy p.decoy_id s f
          (FleetStep-trans s d f h (FleetStep-trans d e f k.0 g)) (g.grows _ k.1))
        λ a b z. (z.0, z.1, rw z.2 k.2, rw z.2 k.3, rw z.2 k.4))

-- From a database with unique decoy ids, a heartbeat whose values fit their columns is stored without
-- an error: the table then has its decoy, healthy and with the heartbeat's time (or the present, if
-- it has none) as its last heartbeat, and so is the decoy that is returned; no decoy is lost, and no
-- table but the fleet's two is changed.
pub upsert_heartbeat-Runs :
    (settings : Settings) (engine : Engine) (p : HeartbeatIn) (s : Db)
    → heartbeat_fits p ≡ true
    → HasUnique s
    → Runs (upsert_heartbeat settings engine p) s (λ decoy d.
      Beaten s (get_or p.ts engine.now) p decoy d × HasBeaten (get_or p.ts engine.now) p d)
unfolding upsert_heartbeat
upsert_heartbeat-Runs settings engine p s fit u =
    Runs-both
      (Runs-bind _ _ (reconcile-Runs settings engine s u) λ _ d h.
        find_decoy_then p.decoy_id d _ _ h.0.unique
          (λ new. require_then _ _ fit (
            heartbeat_rest-Runs engine _ p s d _ h.0
              (beat_none-Runs settings _ p d h.0.unique new)))
          (λ row same known. require_then _ _ fit (
            heartbeat_rest-Runs engine _ p s d _ h.0
              (beat_some-Runs settings _ p row d h.0.unique same known))))
      (upsert_heartbeat-HasBeaten settings engine p s fit u)
