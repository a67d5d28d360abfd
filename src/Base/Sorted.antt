-- ===== src/Base/Sorted.antt =====
-- `sorted(set)`: the elements of a set of texts in the order of their code points, each once.
use Prim.Native.Nat.{Ordering, suc, ◌≤◌}
use Prim.Native.String.{String, compare}
use Prim.Native.String.compare.{nil-nil, nil-cons, cons-nil, cons-cons}
use mathlib.Core.Path.{◌≡◌, refl}
use mathlib.Core.Bool.{◌||◌}
use mathlib.Core.List.{List, [], ◌∷◌}
use native.Mathlib.Omega.{arith}
use text.Mathlib.Text.{◌==◌ as str_eq}
use text.Mathlib.TextEquality.{path_by_compare}
use unikernal_honeynet.Base.Text.{elem}
use unikernal_honeynet.Base.Lists.{length}

insert_sorted : String → List String → List String
insert_sorted x [] = x ∷ []
insert_sorted x (y ∷ ys) = elim (compare x y) [
  | Ordering.lt ↦ x ∷ y ∷ ys
  | Ordering.eq ↦ y ∷ ys
  | Ordering.gt ↦ y ∷ insert_sorted x ys
]

unfoldable pub sorted_set : List String → List String
unfolding insert_sorted
sorted_set [] = []
sorted_set (x ∷ xs) = insert_sorted x (sorted_set xs)

-- Each text is below the next one.
abbrev pub IsSorted : List String → Type 0
IsSorted [] = Unit
IsSorted (x ∷ []) = Unit
IsSorted (x ∷ y ∷ ys) = (compare x y ≡ Ordering.lt) × IsSorted (y ∷ ys)

-- The order of texts is total: what is not below or equal is above.
pub compare_flip : (x y : String) → compare x y ≡ Ordering.gt → compare y x ≡ Ordering.lt
compare_flip String.[] String.[] h = cc (h, nil-nil)
compare_flip String.[] (String.◌∷◌ d t) h = cc (h, nil-cons d t)
compare_flip (String.◌∷◌ c s) String.[] h = cc (nil-cons c s)
compare_flip (String.◌∷◌ c s) (String.◌∷◌ d t) h =
    rw (cons-cons d c t s) (ground (arith, cons-cons c d s t, compare_flip s t))

pub compare_trans :
    (x y z : String)
    → compare x y ≡ Ordering.lt
    → compare y z ≡ Ordering.lt
    → compare x z ≡ Ordering.lt
compare_trans String.[] String.[] z h g = g
compare_trans String.[] (String.◌∷◌ d t) String.[] h g = cc (g, cons-nil d t)
compare_trans String.[] (String.◌∷◌ d t) (String.◌∷◌ e u) h g = nil-cons e u
compare_trans (String.◌∷◌ c s) String.[] z h g = cc (h, cons-nil c s)
compare_trans (String.◌∷◌ c s) (String.◌∷◌ d t) String.[] h g = cc (g, cons-nil d t)
compare_trans (String.◌∷◌ c s) (String.◌∷◌ d t) (String.◌∷◌ e u) h g =
    ground
      (arith, h, g, cons-cons c d s t, cons-cons d e t u, cons-cons c e s u, compare_trans s t u)

elem-insert_sorted :
    (z x : String) (ys : List String) → elem z (insert_sorted x ys) ≡ (str_eq x z || elem z ys)
unfolding insert_sorted
elem-insert_sorted z x [] = refl
elem-insert_sorted z x (y ∷ ys) = ground (arith, elem-insert_sorted z x ys, path_by_compare x y)

-- A text is in the sorted list exactly if it is in the given one.
pub elem-sorted_set : (z : String) (xs : List String) → elem z (sorted_set xs) ≡ elem z xs
unfolding sorted_set
elem-sorted_set z [] = refl
elem-sorted_set z (x ∷ xs) = cc (elem-insert_sorted z x (sorted_set xs), elem-sorted_set z xs)

insert_sorted-IsSorted :
    (x : String) (ys : List String) → IsSorted ys → IsSorted (insert_sorted x ys)
unfolding insert_sorted
insert_sorted-IsSorted x [] h = tt
insert_sorted-IsSorted x (y ∷ []) h = ground (arith, compare_flip x y)
insert_sorted-IsSorted x (y ∷ z ∷ zs) h =
    ground (arith, compare_flip x y, compare_flip x z, insert_sorted-IsSorted x (z ∷ zs))

pub sorted_set-IsSorted : (xs : List String) → IsSorted (sorted_set xs)
unfolding sorted_set
sorted_set-IsSorted [] = tt
sorted_set-IsSorted (x ∷ xs) = insert_sorted-IsSorted x (sorted_set xs) (sorted_set-IsSorted xs)

length-insert_sorted :
    (x : String) (ys : List String) → length (insert_sorted x ys) ≤ suc (length ys)
unfolding insert_sorted
length-insert_sorted x [] = omega arith
length-insert_sorted x (y ∷ ys) = ground (arith, length-insert_sorted x ys)

-- A set has no more elements than the list that it is made of.
pub length-sorted_set : (xs : List String) → length (sorted_set xs) ≤ length xs
unfolding sorted_set
length-sorted_set [] = omega arith
length-sorted_set (x ∷ xs) =
    omega (arith, length-insert_sorted x (sorted_set xs), length-sorted_set xs)
