-- ===== src/Base/Order.antt =====
-- ORDER BY: the rows of a table in an order, those that are not ordered as the table has them.
use mathlib.Core.Path.{◌≡◌, refl}
use mathlib.Core.Bool.{Bool, true, false, ◌||◌}
use mathlib.Core.List.{List, [], ◌∷◌}
use native.Mathlib.Omega.{arith}
use unikernal_honeynet.Base.Lists.{any}
use unikernal_honeynet.Base.Tests.{if◌then◌else◌}

module _ {A : Type 0} (above : A → A → Bool) where
  insert_row : A → List A → List A
  insert_row x [] = x ∷ []
  insert_row x (y ∷ ys) = let rest = insert_row x ys in if above x y then y ∷ rest else x ∷ y ∷ ys

  unfoldable pub order_by : List A → List A
  unfolding insert_row
  order_by [] = []
  order_by (x ∷ xs) = insert_row x (order_by xs)

  -- No row is above the next one.
  abbrev pub IsOrdered : List A → Type 0
  IsOrdered [] = Unit
  IsOrdered (x ∷ []) = Unit
  IsOrdered (x ∷ y ∷ ys) = (above x y ≡ false) × IsOrdered (y ∷ ys)

  any-insert_row :
      (p : A → Bool) (x : A) (ys : List A) → any p (insert_row x ys) ≡ (p x || any p ys)
  unfolding insert_row
  any-insert_row p x [] = refl
  any-insert_row p x (y ∷ ys) = ground (arith, any-insert_row p x ys)

  -- Ordering rows loses none and adds none.
  pub any-order_by : (p : A → Bool) (xs : List A) → any p (order_by xs) ≡ any p xs
  unfolding order_by
  any-order_by p [] = refl
  any-order_by p (x ∷ xs) = cc (any-insert_row p x (order_by xs), any-order_by p xs)

  module _ (flip : (x y : A) → above x y ≡ true → above y x ≡ false) where
    insert_row-IsOrdered : (x : A) (ys : List A) → IsOrdered ys → IsOrdered (insert_row x ys)
    unfolding insert_row
    insert_row-IsOrdered x [] h = tt
    insert_row-IsOrdered x (y ∷ []) h = ground (arith, flip x y)
    insert_row-IsOrdered x (y ∷ z ∷ zs) h =
        ground (arith, flip x y, flip x z, insert_row-IsOrdered x (z ∷ zs))

    pub order_by-IsOrdered : (xs : List A) → IsOrdered (order_by xs)
    unfolding order_by
    order_by-IsOrdered [] = tt
    order_by-IsOrdered (x ∷ xs) = insert_row-IsOrdered x (order_by xs) (order_by-IsOrdered xs)
