-- ===== src/Fleet/Valid.antt =====
-- reconcile_expected_fleet and refresh_fleet_health of ingest_api/services.py return from a database
-- whose decoy ids are unique, keep them unique, lose no decoy, and leave the other tables alone.
use unikernal_honeynet.Base.{
  arith, suc, String, true, false, List, [], ◌∷◌, Option, none, some, ◌≡◌, refl, truthy, Bool-cases,
  inl, inr, All,
}
use unikernal_honeynet.Schemas.{ExpectedDecoy, Settings}
use unikernal_honeynet.Models.{Db, Decoy, Deployment}
use unikernal_honeynet.Session.{◌>>=◌, flush, Engine}
use unikernal_honeynet.Session.Total.{
  Runs, Runs-pure, Runs-bind, gets_then, fresh_then, Runs-for_each, Runs-weaken,
}
use unikernal_honeynet.Session.Keys.{has_key}
use unikernal_honeynet.Payload.{or_default}
use unikernal_honeynet.Fleet.Rows.{decoy_key, find_deployment}
use unikernal_honeynet.Fleet.Refresh.{
  health_of, refresh_decoy, observe_latest, refresh_fleet_health,
}
use unikernal_honeynet.Fleet.Inventory.{
  inventory_decoy, expected_decoy, reconcile_decoy, reconcile_deployment, reconcile_named,
  reconcile_entry, reconcile_expected_fleet,
}
use unikernal_honeynet.Fleet.Step.{
  FleetStep, HasUnique, FleetStep-refl, FleetStep-trans, FleetStep-unique, FleetStep-same,
  same_decoys,
}
use unikernal_honeynet.Fleet.Primitives.{
  HasDecoy, find_decoy_then, add_decoy-Runs, write_decoy-Runs, add_deployment-Runs,
  write_deployment-Runs, flush-Runs,
}

reconcile_decoy-none :
    (settings : Settings) (engine : Engine) (decoy_id : String) (expected : ExpectedDecoy) (s : Db)
    → HasUnique s
    → has_key decoy_key decoy_id s.decoys ≡ false
    → Runs
        (reconcile_decoy settings engine decoy_id expected none)
        s
        (λ _ d. FleetStep s d × HasDecoy decoy_id d)
unfolding reconcile_decoy expected_decoy
reconcile_decoy-none settings engine decoy_id expected s u new = fresh_then _ (
    Runs-bind _ _
      (add_decoy-Runs _ (same_decoys s s.deployments s.new_deployments (suc s.next_id)) u new)
      λ _ d h.
        Runs-bind flush _ (flush-Runs d h.0.unique)
          λ _ e g. Runs-pure _ e _ (FleetStep-trans s d e (counted h.0) g, g.grows decoy_id h.1))
  where
    counted :
        {d : Db}
        → FleetStep (same_decoys s s.deployments s.new_deployments (suc s.next_id)) d
        → FleetStep s d
    counted {d} h = FleetStep-trans s _ d (FleetStep-same s _ _ _ (omega arith) u) h

reconcile_decoy-some :
    (settings : Settings) (engine : Engine) (decoy_id : String) (expected : ExpectedDecoy)
    (row : Decoy) (s : Db)
    → HasUnique s
    → HasDecoy decoy_id s
    → Runs
        (reconcile_decoy settings engine decoy_id expected (some row))
        s
        (λ _ d. FleetStep s d × HasDecoy decoy_id d)
unfolding reconcile_decoy inventory_decoy
reconcile_decoy-some settings engine decoy_id expected row s u known =
    Runs-bind _ _ (write_decoy-Runs row.id (inventory_decoy expected) s (λ row. refl) u)
      λ _ d h. Runs-pure _ d _ (h, h.grows decoy_id known)

reconcile_deployment-Runs :
    (expected : ExpectedDecoy) (decoy : Decoy) (found : Option Deployment) (s : Db)
    → HasUnique s
    → Runs (reconcile_deployment expected decoy found) s (λ _ d. FleetStep s d)
unfolding reconcile_deployment
reconcile_deployment-Runs expected decoy none s u = fresh_then _ (
    Runs-weaken
      (add_deployment-Runs _ (same_decoys s s.deployments s.new_deployments (suc s.next_id)) u)
      λ _ d h. FleetStep-trans s _ d (FleetStep-same s _ _ _ (omega arith) u) h)
reconcile_deployment-Runs expected decoy (some row) s u = write_deployment-Runs row.id _ s u

reconcile_named-Runs :
    (settings : Settings) (engine : Engine) (decoy_id : String) (expected : ExpectedDecoy) (s : Db)
    → HasUnique s
    → Runs
        (reconcile_named settings engine decoy_id expected)
        s
        (λ _ d. FleetStep s d × HasDecoy decoy_id d)
unfolding reconcile_named find_deployment
reconcile_named-Runs settings engine decoy_id expected s u =
    find_decoy_then decoy_id s _ _ u
      (λ new. rest none (reconcile_decoy-none settings engine decoy_id expected s u new))
      (λ row e known.
        rest (some row) (reconcile_decoy-some settings engine decoy_id expected row s u known))
  where
    rest :
        (found : Option Decoy)
        → Runs
            (reconcile_decoy settings engine decoy_id expected found)
            s
            (λ _ d. FleetStep s d × HasDecoy decoy_id d)
        → Runs
            (reconcile_decoy settings engine decoy_id expected found >>= λ decoy.
              find_deployment engine decoy.id >>= λ deployment.
              reconcile_deployment expected decoy deployment)
            s
            (λ _ d. FleetStep s d × HasDecoy decoy_id d)
    rest found r = Runs-bind _ _ r λ decoy d h. gets_then _ _ (
        Runs-weaken (reconcile_deployment-Runs expected decoy _ d h.0.unique)
          λ _ e g. (FleetStep-trans s d e h.0 g, g.grows decoy_id h.1))

-- The inventory's entry has its decoy.
abbrev pub IsListed : ExpectedDecoy → Db → Type 0
IsListed expected d =
    truthy (or_default expected.decoy_id "") ≡ true → HasDecoy (or_default expected.decoy_id "") d

reconcile_entry-Runs :
    (settings : Settings) (engine : Engine) (expected : ExpectedDecoy) (s : Db)
    → HasUnique s
    → Runs (reconcile_entry settings engine expected) s (λ _ d. FleetStep s d × IsListed expected d)
unfolding reconcile_entry
reconcile_entry-Runs settings engine expected s u =
    elim (Bool-cases (truthy (or_default expected.decoy_id ""))) [
      | inl e ↦ rw e (
          Runs-weaken (reconcile_named-Runs settings engine _ expected s u)
            λ _ d h. (h.0, λ _. h.1))
      | inr e ↦ rw e (Runs-pure tt s _ (FleetStep-refl s u, λ h. cc))
    ]

-- From a database with unique decoy ids, the inventory is written without an error, every entry
-- that names a decoy has its row, no decoy is lost, and no table but the fleet's two is changed.
pub reconcile-Runs :
    (settings : Settings) (engine : Engine) (s : Db)
    → HasUnique s
    → Runs
        (reconcile_expected_fleet settings engine)
        s
        (λ _ d. FleetStep s d × All (λ expected. IsListed expected d) settings.expected_fleet)
unfolding reconcile_expected_fleet
reconcile-Runs settings engine s u =
    Runs-bind _ _
      (Runs-for_each HasUnique FleetStep IsListed FleetStep-refl FleetStep-trans FleetStep-unique
        (λ expected a b step h t. step.grows _ (h t)) (reconcile_entry settings engine)
        (reconcile_entry-Runs settings engine) settings.expected_fleet s u)
      λ _ d h.
        Runs-weaken (flush-Runs d h.0.unique)
          λ _ e g. (FleetStep-trans s d e h.0 g, listed settings.expected_fleet d e g h.1)
  where
    listed :
        (xs : List ExpectedDecoy) (d e : Db)
        → FleetStep d e
        → All (λ expected. IsListed expected d) xs
        → All (λ expected. IsListed expected e) xs
    listed [] d e g h = tt
    listed (x ∷ xs) d e g h = (λ t. g.grows _ (h.0 t), listed xs d e g h.1)

refresh_decoy-Runs :
    (settings : Settings) (engine : Engine) (decoy : Decoy) (s : Db)
    → HasUnique s
    → Runs (refresh_decoy settings engine decoy) s (λ _ d. FleetStep s d × Unit {0})
unfolding refresh_decoy find_deployment
refresh_decoy-Runs settings engine decoy s u =
    Runs-bind _ _ (write_decoy-Runs decoy.id _ s (λ row. refl) u) λ _ d h.
      gets_then _ _ (
        Runs-weaken (observed (engine.latest _) d h.unique)
          λ _ e g. (FleetStep-trans s d e h g, tt))
  where
    observed :
        (found : Option Deployment) (d : Db)
        → HasUnique d
        → Runs
            (observe_latest decoy.last_heartbeat_at
              (health_of settings engine.now decoy.last_heartbeat_at)
              found)
            d
            (λ _ e. FleetStep d e)
    observed none d v = Runs-pure tt d _ (FleetStep-refl d v)
    observed (some row) d v = write_deployment-Runs row.id _ d v

-- So is the health of the fleet.
pub refresh-Runs :
    (settings : Settings) (engine : Engine) (s : Db)
    → HasUnique s
    → Runs (refresh_fleet_health settings engine) s (λ _ d. FleetStep s d)
unfolding refresh_fleet_health
refresh-Runs settings engine s u = gets_then _ _ (
    Runs-bind _ _
      (Runs-for_each HasUnique FleetStep (λ _ _. Unit {0}) FleetStep-refl FleetStep-trans
        FleetStep-unique (λ _ _ _ _ _. tt) (refresh_decoy settings engine)
        (refresh_decoy-Runs settings engine) s.decoys s u)
      λ _ d h. Runs-weaken (flush-Runs d h.0.unique) λ _ e g. FleetStep-trans s d e h.0 g)
