-- ===== src/Migrations/Undone.antt =====
-- ingest_api/alembic/versions: a downgrade gives back the schema that the upgrade was run on.
use unikernal_honeynet.Base.{List, [], ◌∷◌, ◌++◌, Option, none, some, ◌≡◌, refl, sym, ◌∙◌}
use unikernal_honeynet.Migrations.{Change, Drop, Alembic, drop_of, IsLawful}
use unikernal_honeynet.Migrations.Initial.{initial_changes, initial_drops}
use unikernal_honeynet.Migrations.Enterprise.{enterprise_v2_changes, enterprise_v2_drops}

-- The migrations by their `revision`.
pub data Revision : Type 0 where
  initial enterprise_v2 : Revision

unfoldable pub changes_of : Revision → List Change
changes_of initial = initial_changes
changes_of enterprise_v2 = enterprise_v2_changes

unfoldable pub drops_of : Revision → List Drop
drops_of initial = initial_drops
drops_of enterprise_v2 = enterprise_v2_drops

-- The drops that undo changes, the latest first.
undoing : List Change → List Drop
undoing [] = []
undoing (c ∷ cs) = undoing cs ++ drop_of c ∷ []

-- Each downgrade drops exactly what its upgrade creates, in the reverse order.
drops_undo : (revision : Revision) → drops_of revision ≡ undoing (changes_of revision)
unfolding drops_of changes_of undoing initial_changes initial_drops enterprise_v2_changes
    enterprise_v2_drops
drops_undo initial = refl
drops_undo enterprise_v2 = refl

module _ (A : Alembic) where
  apply_changes : List Change → A.State → Option A.State
  apply_changes [] s = some s
  apply_changes (c ∷ cs) s = elim (A.change c s) [ none ↦ none | some t ↦ apply_changes cs t ]

  apply_drops : List Drop → A.State → Option A.State
  apply_drops [] s = some s
  apply_drops (d ∷ ds) s = elim (A.drop d s) [ none ↦ none | some t ↦ apply_drops ds t ]

  -- `upgrade` of the migration, statement after statement.
  unfoldable pub upgrade : Revision → A.State → Option A.State
  unfolding apply_changes
  upgrade revision = apply_changes (changes_of revision)

  unfoldable pub downgrade : Revision → A.State → Option A.State
  unfolding apply_drops
  downgrade revision = apply_drops (drops_of revision)

  step_done :
      (o : Option A.State) (f : A.State → Option A.State) (t : A.State)
      → elim o [ none ↦ none | some u ↦ f u ] ≡ some t
      → (u : A.State) × (o ≡ some u) × (f u ≡ some t)
  step_done none f t h = cc (h)
  step_done (some u) f t h = (u, refl, h)

  apply_drops-append :
      (ds es : List Drop) (s t : A.State)
      → apply_drops ds s ≡ some t
      → apply_drops (ds ++ es) s ≡ apply_drops es t
  unfolding apply_drops
  apply_drops-append [] es s t h = cc (h)
  apply_drops-append (d ∷ ds) es s t h =
      let (u, e, k) = step_done (A.drop d s) (apply_drops ds) t h in
      rw e (apply_drops-append ds es u t k)

  module _ (lawful : IsLawful A) where
    undone :
        (cs : List Change) (s t : A.State)
        → apply_changes cs s ≡ some t
        → apply_drops (undoing cs) t ≡ some s
    unfolding apply_changes apply_drops undoing
    undone [] s t h = sym h
    undone (c ∷ cs) s t h =
        let (u, e, k) = step_done (A.change c s) (apply_changes cs) t h in
        apply_drops-append (undoing cs) (drop_of c ∷ []) t u (undone cs u t k)
        ∙ rw (apply_drops, lawful c s u e) refl

    -- If the upgrade of a migration is carried out, its downgrade is too, and gives back the schema
    -- that the upgrade was run on, where to drop what a single operation has just created does so.
    pub downgrade-upgrade :
        (revision : Revision) (s t : A.State)
        → upgrade revision s ≡ some t
        → downgrade revision t ≡ some s
    unfolding upgrade downgrade
    downgrade-upgrade revision s t h = rw (drops_undo revision) (undone (changes_of revision) s t h)
