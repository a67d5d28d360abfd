-- ===== src/Fleet/Rows.antt =====
-- The queries and writes of ingest_api/services.py on decoys and deployments.
use unikernal_honeynet.Base.{ℕ, String, [], ◌∷◌, ◌++◌, Option, str_eq, ◌==◌, if◌then◌else◌, filter}
use unikernal_honeynet.Schemas.{Value, Dict}
use unikernal_honeynet.Models.{Decoy, Deployment}
use unikernal_honeynet.Session.{
  Exec, ◌>>=◌, gets, modify, one_or_none, update_where, insert_unique, Engine,
}
use unikernal_honeynet.Session.Keys.{with_key}

-- `{**d, key: value}`
unfoldable pub set_key : String → Value → Dict → Dict
set_key key value [] = (key, value) ∷ []
set_key key value ((k, v) ∷ rest) =
    let others = set_key key value rest in
    if str_eq k key then (k, value) ∷ rest else (k, v) ∷ others

abbrev pub decoy_key : Decoy → String
decoy_key decoy = decoy.decoy_id

unfoldable pub find_decoy : String → Exec (Option Decoy)
find_decoy decoy_id = do rows ← gets (λ db. with_key decoy_key decoy_id db.decoys); one_or_none rows

-- The decoy's deployment that was updated last.
unfoldable pub find_deployment : Engine → ℕ → Exec (Option Deployment)
find_deployment engine decoy_pk =
    gets λ db. engine.latest (filter (λ deployment. deployment.decoy_pk == decoy_pk) db.deployments)

unfoldable pub add_decoy : Decoy → Exec (Unit {0})
add_decoy decoy db =
    insert_unique decoy_key decoy db.decoys (λ rows d. record d { decoys = rows }) db

unfoldable pub write_decoy : ℕ → (Decoy → Decoy) → Exec (Unit {0})
write_decoy id f =
    modify λ db. record db { decoys = update_where (λ decoy. decoy.id == id) f db.decoys }

unfoldable pub add_deployment : Deployment → Exec (Unit {0})
add_deployment deployment =
    modify λ db. record db { new_deployments = db.new_deployments ++ deployment ∷ [] }

unfoldable pub write_deployment : ℕ → (Deployment → Deployment) → Exec (Unit {0})
write_deployment id f =
    modify λ db. record db { deployments = update_where (λ row. row.id == id) f db.deployments }
