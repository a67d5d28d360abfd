-- ===== src/Baseline/Distinct.antt =====
-- Lists of tags that container-baseline/app.py, build_event, extends by tags that they have not.
use unikernal_honeynet.Base.{
  String, Bool, true, false, ◌&&◌, ◌||◌, not, List, [], ◌∷◌, ◌++◌, ◌≡◌, refl, arith, str_eq, eq_iff,
  if◌then◌else◌, elem, Bool-cases, inl, inr,
}
use unikernal_honeynet.Baseline.{add_tag}

-- No tag is in the list twice.
abbrev pub AreDistinct : List String → Type 0
AreDistinct [] = Unit
AreDistinct (tag ∷ tags) = (elem tag tags ≡ false) × AreDistinct tags

pub elem-append : (t : String) (xs ys : List String) → elem t (xs ++ ys) ≡ (elem t xs || elem t ys)
elem-append t [] ys = refl
elem-append t (x ∷ xs) ys = ground (arith, elem-append t xs ys)

pub AreDistinct-append :
    (xs : List String) (tag : String)
    → AreDistinct xs
    → elem tag xs ≡ false
    → AreDistinct (xs ++ tag ∷ [])
AreDistinct-append [] tag d h = (refl, tt)
AreDistinct-append (x ∷ xs) tag d h = (
  ground (arith, d.0, h, elem-append x xs (tag ∷ []), eq_iff tag x, eq_iff x tag),
  AreDistinct-append xs tag d.1 (ground (arith, h)),
)

pub add_tag-AreDistinct :
    (tag : String) (tags : List String) → AreDistinct tags → AreDistinct (add_tag tag tags)
add_tag-AreDistinct tag tags d = elim (Bool-cases (elem tag tags)) [
  | inl e ↦ rw e d
  | inr e ↦ rw e (AreDistinct-append tags tag d e)
]

pub elem-add_tag :
    (t tag : String) (tags : List String)
    → elem t (add_tag tag tags) ≡ (elem t tags || str_eq tag t)
elem-add_tag t tag tags = ground (arith, elem-append t tags (tag ∷ []), eq_iff tag t)

pub if-AreDistinct :
    (b : Bool) (xs ys : List String)
    → AreDistinct xs
    → AreDistinct ys
    → AreDistinct (if b then xs else ys)
if-AreDistinct true xs ys d e = d
if-AreDistinct false xs ys d e = e

pub elem-if :
    (t : String) (b : Bool) (xs ys : List String)
    → elem t (if b then xs else ys) ≡ (if b then elem t xs else elem t ys)
elem-if t true xs ys = refl
elem-if t false xs ys = refl

pub elem-tagged :
    (t tag : String) (b : Bool) (xs : List String)
    → elem t (if b then add_tag tag xs else xs) ≡ (elem t xs || (b && str_eq tag t))
elem-tagged t tag true xs = elem-add_tag t tag xs
elem-tagged t tag false xs = ground arith

pub elem-untagged :
    (t tag : String) (b : Bool) (xs : List String)
    → elem t (if b then xs else add_tag tag xs) ≡ (elem t xs || (not b && str_eq tag t))
elem-untagged t tag true xs = ground arith
elem-untagged t tag false xs = elem-add_tag t tag xs
