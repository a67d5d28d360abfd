-- ===== src/Tags/Normalized.antt =====
-- What `normalize_tags` of ingest_api/services.py returns.
use unikernal_honeynet.Base.{
  String, Bool, true, false, ◌||◌, List, [], ◌∷◌, ◌++◌, ◌≡◌, ◌↔◌, refl, ◌∙◌, arith, elem,
  elem-sorted_set, sorted_set, IsSorted, sorted_set-IsSorted, eq_iff,
}
use unikernal_honeynet.Schemas.{IngestEventIn}
use unikernal_honeynet.Tags.{cleaned, given_tags, earned_tags, with_recon, normalize_tags}

pub elem-append : (x : String) (xs ys : List String) → elem x (xs ++ ys) ≡ (elem x xs || elem x ys)
elem-append x [] ys = refl
elem-append x (y ∷ xs) ys = ground (arith, elem-append x xs ys)

-- The result is in the order of the code points, with no tag twice.
pub normalize_tags-IsSorted : (event : IngestEventIn) → IsSorted (normalize_tags event)
unfolding normalize_tags
normalize_tags-IsSorted event = sorted_set-IsSorted _

elem-with_recon :
    (x : String) (suspicious : Bool) (tags : List String)
    → elem x tags ≡ true
    → elem x (with_recon suspicious tags) ≡ true
unfolding with_recon
elem-with_recon x suspicious [] h = cc
elem-with_recon x suspicious (tag ∷ rest) h = h

-- A tag that the request earns is in the result.
pub elem-normalize_tags :
    (x : String) (event : IngestEventIn)
    → elem x (earned_tags event) ≡ true
    → elem x (normalize_tags event) ≡ true
unfolding normalize_tags
elem-normalize_tags x event h =
    elem-sorted_set x _
    ∙ elem-with_recon x event.suspicious _
        (ground (arith, elem-append x (cleaned (given_tags event)) (earned_tags event)))

with_recon-nil :
    (suspicious : Bool) (tags : List String)
    → with_recon suspicious tags ≡ []
    → (suspicious ≡ false) × (tags ≡ [])
unfolding with_recon
with_recon-nil suspicious tags h = ground arith

sorted_set-nil : (xs : List String) → sorted_set xs ≡ [] → xs ≡ []
sorted_set-nil [] h = refl
sorted_set-nil (x ∷ xs) h = absurd (ground (arith, elem-sorted_set x (x ∷ xs), eq_iff x x))

tags-nil :
    (suspicious : Bool) (xs ys : List String)
    → sorted_set (with_recon suspicious (xs ++ ys)) ≡ []
    → (suspicious ≡ false) × (xs ≡ []) × (ys ≡ [])
tags-nil suspicious [] ys h =
    let (a, b) = with_recon-nil suspicious ys (sorted_set-nil _ h) in (a, refl, b)
tags-nil suspicious (x ∷ xs) ys h =
    cc (with_recon-nil suspicious (x ∷ xs ++ ys) (sorted_set-nil _ h)).1

nil-tags :
    (suspicious : Bool) (xs ys : List String)
    → (suspicious ≡ false) × (xs ≡ []) × (ys ≡ [])
    → sorted_set (with_recon suspicious (xs ++ ys)) ≡ []
unfolding sorted_set with_recon
nil-tags suspicious xs ys (a, b, c) = rw (a, b, c) refl

-- An event is left without a tag exactly if it was not suspicious, came with no tag but blank
-- ones, and earned none.
pub normalize_tags-nil :
    (event : IngestEventIn)
    → (normalize_tags event ≡ [])
      ↔ ((event.suspicious ≡ false) × (cleaned (given_tags event) ≡ []) × (earned_tags event ≡ []))
unfolding normalize_tags
normalize_tags-nil event = (tags-nil event.suspicious _ _, nil-tags event.suspicious _ _)
