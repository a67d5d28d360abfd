-- ===== src/Tests/Migrated.antt =====
-- The migrations of ingest_api/alembic/versions on an empty schema.
use unikernal_honeynet.Base.{
  Bool, true, false, ◌&&◌, List, [], ◌∷◌, Option, none, some, ◌≡◌, refl, str_eq, eq_iff, subst,
  if◌then◌else◌, any,
}
use unikernal_honeynet.Migrations.{
  Drop, drop_table, drop_column, drop_index, Alembic, drop_of, IsLawful,
}
use unikernal_honeynet.Migrations.Initial.{initial_changes, initial_drops}
use unikernal_honeynet.Migrations.Undone.{
  initial, changes_of, drops_of, upgrade, downgrade, downgrade-upgrade,
}

abbrev same_item : Drop → Drop → Bool
same_item (drop_table a) (drop_table b) = str_eq a b
same_item (drop_column t a) (drop_column u b) = str_eq t u && str_eq a b
same_item (drop_index a t) (drop_index b u) = str_eq a b && str_eq t u
same_item _ _ = false

abbrev remove_item : Drop → List Drop → Option (List Drop)
remove_item d [] = none
remove_item d (x ∷ xs) =
    let rest = remove_item d xs in
    if same_item x d then some xs else elim rest [ none ↦ none | some ys ↦ some (x ∷ ys) ]

-- A schema as the list of what can be dropped from it.
abbrev item_list : Alembic
item_list = record {
  State = List Drop;
  change = λ c s. if any (λ x. same_item x (drop_of c)) s then none else some (drop_of c ∷ s);
  drop = remove_item;
}

same_item_refl : (d : Drop) → same_item d d ≡ true
same_item_refl (drop_table a) = (eq_iff a a).1 refl
same_item_refl (drop_column t a) = rw ((eq_iff t t).1 refl, (eq_iff a a).1 refl) refl
same_item_refl (drop_index a t) = rw ((eq_iff t t).1 refl, (eq_iff a a).1 refl) refl

item_list-IsLawful : IsLawful item_list
item_list-IsLawful c s t h = listed (any (λ x. same_item x (drop_of c)) s) h
  where
    listed :
        (b : Bool)
        → (if b then none else some (drop_of c ∷ s)) ≡ some t
        → remove_item (drop_of c) t ≡ some s
    listed true h = cc (h)
    listed false h =
        let same : drop_of c ∷ s ≡ t = cc (h) in
        subst (λ u. remove_item (drop_of c) u ≡ some s) same (rw (same_item_refl (drop_of c)) refl)

upgraded : upgrade item_list initial [] ≡ some (drops_of initial)
unfolding upgrade drops_of changes_of initial_changes initial_drops
upgraded = refl

downgrade-upgrade_example : downgrade item_list initial (drops_of initial) ≡ some []
downgrade-upgrade_example =
    downgrade-upgrade item_list item_list-IsLawful initial [] (drops_of initial) upgraded
