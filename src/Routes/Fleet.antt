-- ===== src/Routes/Fleet.antt =====
-- GET /api/v1/fleet of ingest_api/main.py: what the fleet's list has.
use Prim.Native.Nat.{Ordering}
use unikernal_honeynet.Base.{
  arith, order_by, any-order_by, IsOrdered, order_by-IsOrdered, sym, subst, false, String, Bool,
  true, List, [], ◌∷◌, Option, none, some, ◌≡◌, refl, ◌∙◌, str_eq, any, map, All, ap, filter, ◌==◌,
  ◌||◌,
}
use unikernal_honeynet.Schemas.{Settings, ExpectedDecoy}
use unikernal_honeynet.Models.{Db, Decoy, Deployment}
use unikernal_honeynet.Session.{Engine}
use unikernal_honeynet.Session.Total.{Runs, Runs-bind, Runs-gets}
use unikernal_honeynet.Session.Keys.{has_key}
use unikernal_honeynet.Fleet.Rows.{decoy_key}
use unikernal_honeynet.Fleet.Step.{FleetStep, FleetStep-trans, HasUnique}
use unikernal_honeynet.Fleet.Valid.{IsListed, reconcile-Runs, refresh-Runs}
use unikernal_honeynet.Posture.{Collation, fleet_order, is_above, query_fleet}
use unikernal_honeynet.Routes.{FleetOut, fleet_out, list_fleet}

-- A collation that agrees with itself when the texts are exchanged.
abbrev pub IsConverse : Collation → Type 0
IsConverse collate = (x y : String) → collate x y ≡ Ordering.gt → collate y x ≡ Ordering.lt

-- The list has the decoy.
abbrev pub has_decoy : String → List FleetOut → Bool
has_decoy k = any λ (out : FleetOut). str_eq out.decoy.decoy_id k

out_decoy : (row : Decoy) (found : Option Deployment) → (fleet_out row found).decoy ≡ row
unfolding fleet_out
out_decoy row none = refl
out_decoy row (some d) = refl

decoys-map :
    (found : Decoy → Option Deployment) (rows : List Decoy)
    → map (λ out. out.decoy) (map (λ row. fleet_out row (found row)) rows) ≡ rows
decoys-map found [] = refl
decoys-map found (row ∷ rows) = cc (out_decoy row (found row), decoys-map found rows)

has_decoy-map :
    (k : String) (found : Decoy → Option Deployment) (rows : List Decoy)
    → has_decoy k (map (λ row. fleet_out row (found row)) rows) ≡ has_key decoy_key k rows
has_decoy-map k found [] = refl
has_decoy-map k found (row ∷ rows) =
    let e : (fleet_out row (found row)).decoy.decoy_id ≡ row.decoy_id =
      ap (λ (d : Decoy). d.decoy_id) (out_decoy row (found row)) in
    rw e (ap (λ b. str_eq row.decoy_id k || b) (has_decoy-map k found rows))

-- What is above is not below, in each text of the order.
is_above-flip :
    (collate : Collation)
    → IsConverse collate
    → (a b : Decoy) → is_above collate a b ≡ true
    → is_above collate b a ≡ false
unfolding is_above
is_above-flip collate flip a b h =
    let x = fleet_order a in
    let y = fleet_order b in
    ground
      (arith, flip x.0 y.0, flip y.0 x.0, flip x.1 y.1, flip y.1 x.1, flip x.2 y.2, flip y.2 x.2)

query_fleet-Runs :
    (collate : Collation) (settings : Settings) (engine : Engine) (s : Db)
    → HasUnique s
    → Runs (query_fleet collate settings engine) s (λ rows d.
      (rows ≡ order_by (is_above collate) d.decoys)
      × FleetStep s d
      × All (λ expected. IsListed expected d) settings.expected_fleet)
unfolding query_fleet
query_fleet-Runs collate settings engine s u =
    Runs-bind _ _ (reconcile-Runs settings engine s u) λ _ a ha.
      Runs-bind _ _ (refresh-Runs settings engine a ha.0.unique) λ _ b hb.
        Runs-gets (λ db. order_by (is_above collate) db.decoys) b _
          (refl, FleetStep-trans s a b ha.0 hb, still a b hb settings.expected_fleet ha.1)
  where
    still :
        (a b : Db)
        → FleetStep a b
        → (xs : List ExpectedDecoy) → All (λ expected. IsListed expected a) xs
        → All (λ expected. IsListed expected b) xs
    still a b step [] h = tt
    still a b step (x ∷ xs) h = (λ t. step.grows _ (h.0 t), still a b step xs h.1)

-- From a database with unique decoy ids the fleet's list is answered: it has a decoy exactly if the
-- table then has it, no decoy that the table had before is missing, every entry of the inventory
-- that names a decoy is in it, and no table but the fleet's is changed. Its rows are in the order
-- of their health, site and decoy id, where what the database orders after a text it orders before
-- when the two are exchanged.
pub list_fleet-Runs :
    (collate : Collation) (settings : Settings) (engine : Engine)
    (last : List Deployment → Option Deployment) (s : Db)
    → IsConverse collate
    → HasUnique s
    → Runs (list_fleet collate settings engine last) s (λ outs d.
      FleetStep s d
      × ((k : String) → has_decoy k outs ≡ has_key decoy_key k d.decoys)
      × ((k : String) → has_key decoy_key k s.decoys ≡ true → has_decoy k outs ≡ true)
      × All (λ expected. IsListed expected d) settings.expected_fleet
      × IsOrdered (is_above collate) (map (λ out. out.decoy) outs))
unfolding list_fleet
list_fleet-Runs collate settings engine last s flip u =
    Runs-bind _ _ (refresh-Runs settings engine s u) λ _ a ha.
      Runs-bind _ _ (query_fleet-Runs collate settings engine a ha.unique) λ rows d h.
        let step = FleetStep-trans s a d ha h.1 in
        let same : (k : String) → has_decoy k (outs_of d rows) ≡ has_key decoy_key k d.decoys = λ k.
          has_decoy-map k (deployment_of d) rows
          ∙ ap (has_key decoy_key k) h.0
          ∙ any-order_by (is_above collate) _ d.decoys in
        let ordered : IsOrdered (is_above collate) (map (λ out. out.decoy) (outs_of d rows)) =
          subst (IsOrdered (is_above collate)) (sym (decoys-map (deployment_of d) rows ∙ h.0))
            (order_by-IsOrdered (is_above collate) (is_above-flip collate flip) d.decoys) in
        Runs-gets (λ db. outs_of db rows) d _
          (step, same, λ k known. same k ∙ step.grows k known, h.2, ordered)
  where
    deployment_of : Db → Decoy → Option Deployment
    deployment_of db row = last (filter (λ (d : Deployment). d.decoy_pk == row.id) db.deployments)

    outs_of : Db → List Decoy → List FleetOut
    outs_of db rows = map (λ row. fleet_out row (deployment_of db row)) rows
