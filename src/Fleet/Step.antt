-- ===== src/Fleet/Step.antt =====
-- What the fleet's operations of ingest_api/services.py may change in a database.
use unikernal_honeynet.Base.{
  ℕ, ◌≤◌, String, true, false, List, [], ◌∷◌, ◌++◌, ◌≡◌, refl, ◌∙◌, arith, ◌==◌,
}
use unikernal_honeynet.Models.{Db, Decoy, Deployment}
use unikernal_honeynet.Session.{update_where}
use unikernal_honeynet.Session.Keys.{
  IsUnique, IsUnique-append, IsUnique-update_where, has_key, has_key-append, has_key-update_where,
}
use unikernal_honeynet.Fleet.Rows.{decoy_key}

-- From `s` to `d` the fleet's tables may have changed, with unique decoy ids and no decoy lost, and
-- no other table.
pub record FleetStep (s d : Db) : Type 0 where
  pub unique : IsUnique decoy_key d.decoys
  pub grows :
      (k : String) → has_key decoy_key k s.decoys ≡ true → has_key decoy_key k d.decoys ≡ true
  pub events : d.events ≡ s.events
  pub credentials : d.credentials ≡ s.credentials
  pub investigations : d.investigations ≡ s.investigations
  pub detections : d.detections ≡ s.detections
  pub users : d.users ≡ s.users
  pub artifacts : d.artifacts ≡ s.artifacts
  pub counts : s.next_id ≤ d.next_id

abbrev pub HasUnique : Db → Type 0
HasUnique s = IsUnique decoy_key s.decoys

pub FleetStep-refl : (s : Db) → HasUnique s → FleetStep s s
FleetStep-refl s u = record {
  unique = u;
  grows = λ k h. h;
  events = refl;
  credentials = refl;
  investigations = refl;
  detections = refl;
  users = refl;
  artifacts = refl;
  counts = omega arith;
}

pub FleetStep-trans : (s d e : Db) → FleetStep s d → FleetStep d e → FleetStep s e
FleetStep-trans s d e p q = record {
  unique = q.unique;
  grows = λ k h. q.grows k (p.grows k h);
  events = q.events ∙ p.events;
  credentials = q.credentials ∙ p.credentials;
  investigations = q.investigations ∙ p.investigations;
  detections = q.detections ∙ p.detections;
  users = q.users ∙ p.users;
  artifacts = q.artifacts ∙ p.artifacts;
  counts = omega (arith, p.counts, q.counts);
}

pub FleetStep-unique : (s d : Db) → FleetStep s d → HasUnique d
FleetStep-unique s d p = p.unique

-- Deployments and the counter of primary keys are no matter.
abbrev pub same_decoys : Db → List Deployment → List Deployment → ℕ → Db
same_decoys s rows new id = record s { next_id = id; deployments = rows; new_deployments = new }

pub FleetStep-same :
    (s : Db) (rows new : List Deployment) (id : ℕ)
    → s.next_id ≤ id
    → HasUnique s
    → FleetStep s (same_decoys s rows new id)
FleetStep-same s rows new id le u = record {
  unique = u;
  grows = λ k h. h;
  events = refl;
  credentials = refl;
  investigations = refl;
  detections = refl;
  users = refl;
  artifacts = refl;
  counts = le;
}

-- A decoy with a new id.
pub FleetStep-add :
    (s : Db) (decoy : Decoy) (rows new : List Deployment) (id : ℕ)
    → s.next_id ≤ id
    → HasUnique s
    → has_key decoy_key decoy.decoy_id s.decoys ≡ false
    → FleetStep s (record (same_decoys s rows new id) { decoys = s.decoys ++ decoy ∷ [] })
FleetStep-add s decoy rows new id le u fresh = record {
  unique = IsUnique-append decoy_key s.decoys decoy u fresh;
  grows = λ k h. rw has_key-append (ground (arith, h));
  events = refl;
  credentials = refl;
  investigations = refl;
  detections = refl;
  users = refl;
  artifacts = refl;
  counts = le;
}

-- A write to columns other than the id.
pub FleetStep-write :
    (s : Db) (id : ℕ) (f : Decoy → Decoy)
    → ((row : Decoy) → (f row).decoy_id ≡ row.decoy_id)
    → HasUnique s
    → FleetStep s (record s { decoys = update_where (λ decoy. decoy.id == id) f s.decoys })
FleetStep-write s id f same u = record {
  unique = IsUnique-update_where decoy_key _ f same s.decoys u;
  grows = λ k h. rw (has_key-update_where decoy_key (λ decoy. decoy.id == id) f same k s.decoys) h;
  events = refl;
  credentials = refl;
  investigations = refl;
  detections = refl;
  users = refl;
  artifacts = refl;
  counts = omega arith;
}
