-- ===== src/Fleet/Primitives.antt =====
-- The queries and writes of ingest_api/services.py on the fleet return from a database whose decoy ids
-- are unique.
use unikernal_honeynet.Base.{ℕ, String, true, false, Option, none, some, ◌≡◌, arith, eq_iff}
use unikernal_honeynet.Models.{Db, Decoy, Deployment}
use unikernal_honeynet.Session.{Exec, ◌>>=◌, flush}
use unikernal_honeynet.Session.Total.{Runs, Runs-bind, gets_then, Runs-modify, Runs-insert_unique}
use unikernal_honeynet.Session.Keys.{has_key, has_key-append, Found, Found_cases, one_by_key}
use unikernal_honeynet.Fleet.Rows.{
  decoy_key, find_decoy, add_decoy, write_decoy, add_deployment, write_deployment,
}
use unikernal_honeynet.Fleet.Step.{
  FleetStep, HasUnique, FleetStep-same, FleetStep-add, FleetStep-write,
}

abbrev pub HasDecoy : String → Db → Type 0
HasDecoy k d = has_key decoy_key k d.decoys ≡ true

find_decoy-Runs :
    (decoy_id : String) (s : Db)
    → HasUnique s
    → Runs (find_decoy decoy_id) s (Found decoy_key decoy_id s.decoys s)
unfolding find_decoy
find_decoy-Runs decoy_id s u = gets_then _ _ (one_by_key decoy_key decoy_id s.decoys s u)

pub find_decoy_then :
    {B : Type 0} (decoy_id : String) (s : Db) (f : Option Decoy → Exec B) (Q : B → Db → Type 0)
    → HasUnique s
    → (has_key decoy_key decoy_id s.decoys ≡ false → Runs (f none) s Q)
    → ((row : Decoy) → row.decoy_id ≡ decoy_id → HasDecoy decoy_id s → Runs (f (some row)) s Q)
    → Runs (find_decoy decoy_id >>= f) s Q
find_decoy_then decoy_id s f Q u missing present =
    Runs-bind (find_decoy decoy_id) f (find_decoy-Runs decoy_id s u)
      λ o d h. Found_cases decoy_key decoy_id s.decoys s d o f Q h missing present

pub add_decoy-Runs :
    (decoy : Decoy) (s : Db)
    → HasUnique s
    → has_key decoy_key decoy.decoy_id s.decoys ≡ false
    → Runs (add_decoy decoy) s (λ _ d. FleetStep s d × HasDecoy decoy.decoy_id d)
add_decoy-Runs decoy s u new =
    let r =
      Runs-insert_unique decoy_key decoy s.decoys (λ rows d. record d { decoys = rows }) s
        (λ _ d. FleetStep s d × HasDecoy decoy.decoy_id d) new
        (
          FleetStep-add s decoy s.deployments s.new_deployments s.next_id (omega arith) u new,
          rw has_key-append (ground (arith, eq_iff decoy.decoy_id decoy.decoy_id)),
        ) in
    unfold add_decoy in
    record { result = r.result; after = r.after; runs = r.runs; holds = r.holds }

pub write_decoy-Runs :
    (id : ℕ) (f : Decoy → Decoy) (s : Db)
    → ((row : Decoy) → (f row).decoy_id ≡ row.decoy_id)
    → HasUnique s
    → Runs (write_decoy id f) s (λ _ d. FleetStep s d)
unfolding write_decoy
write_decoy-Runs id f s same u = Runs-modify _ s _ (FleetStep-write s id f same u)

pub add_deployment-Runs :
    (row : Deployment) (s : Db) → HasUnique s → Runs (add_deployment row) s (λ _ d. FleetStep s d)
unfolding add_deployment
add_deployment-Runs row s u = Runs-modify _ s _ (FleetStep-same s _ _ _ (omega arith) u)

pub write_deployment-Runs :
    (id : ℕ) (f : Deployment → Deployment) (s : Db)
    → HasUnique s
    → Runs (write_deployment id f) s (λ _ d. FleetStep s d)
unfolding write_deployment
write_deployment-Runs id f s u = Runs-modify _ s _ (FleetStep-same s _ _ _ (omega arith) u)

pub flush-Runs : (s : Db) → HasUnique s → Runs flush s (λ _ d. FleetStep s d)
flush-Runs s u = unfold flush in Runs-modify _ s _ (FleetStep-same s _ _ _ (omega arith) u)
