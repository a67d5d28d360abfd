-- ===== src/Session/Keys.antt =====
-- Tables with a unique text column.
use unikernal_honeynet.Base.{
  String, Bool, true, false, ◌||◌, List, [], ◌∷◌, ◌++◌, Option, none, some, ◌≡◌, refl, inl, inr,
  arith, any, filter, str_eq, eq_iff, Bool-cases,
}
use unikernal_honeynet.Models.{Db}
use unikernal_honeynet.Session.{Exec, one_or_none, update_where}
use unikernal_honeynet.Session.Total.{Runs}

module _ {A : Type 0} (key : A → String) where
  abbrev pub has_key : String → List A → Bool
  has_key k rows = any (λ row. str_eq (key row) k) rows

  abbrev pub with_key : String → List A → List A
  with_key k rows = filter (λ row. str_eq (key row) k) rows

  -- No two rows have the same key.
  abbrev pub IsUnique : List A → Type 0
  IsUnique [] = Unit
  IsUnique (row ∷ rows) = (has_key (key row) rows ≡ false) × IsUnique rows

  pub with_key-nil : (k : String) (rows : List A) → has_key k rows ≡ false → with_key k rows ≡ []
  with_key-nil k [] h = refl
  with_key-nil k (row ∷ rows) h = ground (arith, with_key-nil k rows)

  -- What `one_or_none` finds: the row that has the key, or nothing and no row has it.
  abbrev pub Found : String → List A → Db → Option A → Db → Type 0
  Found k rows db none d = (d ≡ db) × (has_key k rows ≡ false)
  Found k rows db (some row) d = (d ≡ db) × (key row ≡ k) × (has_key k rows ≡ true)

  Found-cons :
      (k : String) (row : A) (rows : List A) (db d : Db) (o : Option A)
      → str_eq (key row) k ≡ false
      → Found k rows db o d
      → Found k (row ∷ rows) db o d
  Found-cons k row rows db d none e h = (h.0, rw e h.1)
  Found-cons k row rows db d (some r) e h = (h.0, h.1, rw e h.2)

  pub one_by_key :
      (k : String) (rows : List A) (db : Db)
      → IsUnique rows
      → Runs (one_or_none (with_key k rows)) db (Found k rows db)
  unfolding one_or_none
  one_by_key k [] db u = record { result = none; after = db; runs = refl; holds = (refl, refl) }
  one_by_key k (row ∷ rows) db u = elim (Bool-cases (str_eq (key row) k)) [
    | inl e ↦
        let hit : key row ≡ k = (eq_iff (key row) k).0 e in
        record {
          result = some row;
          after = db;
          runs = rw (e, with_key-nil k rows (rw hit at u.0)) refl;
          holds = (refl, hit, rw e refl);
        }
    | inr e ↦
        let r = one_by_key k rows db u.1 in
        record {
          result = r.result;
          after = r.after;
          runs = rw e r.runs;
          holds = Found-cons k row rows db r.after r.result e r.holds;
        }
  ]

  -- To go on after a query for a key, both results are considered.
  pub Found_cases :
      {B : Type 0} (k : String) (rows : List A) (s d : Db) (o : Option A) (f : Option A → Exec B)
      (Q : B → Db → Type 0)
      → Found k rows s o d
      → (has_key k rows ≡ false → Runs (f none) s Q)
      → ((row : A) → key row ≡ k → has_key k rows ≡ true → Runs (f (some row)) s Q)
      → Runs (f o) d Q
  Found_cases k rows s d none f Q h missing present = rw h.0 (missing h.1)
  Found_cases k rows s d (some row) f Q h missing present = rw h.0 (present row h.1 h.2)

  pub has_key-append :
      (k : String) (rows : List A) (row : A)
      → has_key k (rows ++ row ∷ []) ≡ (has_key k rows || str_eq (key row) k)
  has_key-append k [] row = ground arith
  has_key-append k (x ∷ rows) row = ground (arith, has_key-append k rows row)

  -- A row with a new key keeps the keys unique.
  pub IsUnique-append :
      (rows : List A) (row : A)
      → IsUnique rows
      → has_key (key row) rows ≡ false
      → IsUnique (rows ++ row ∷ [])
  IsUnique-append [] row u new = (refl, tt)
  IsUnique-append (x ∷ rows) row u new = (
    ground (
      arith,
      has_key-append (key x) rows row,
      eq_iff (key x) (key row),
      eq_iff (key row) (key x),
    ),
    IsUnique-append rows row u.1 (ground arith),
  )

  module _ (test : A → Bool) (f : A → A) (same : (row : A) → key (f row) ≡ key row) where
    pub has_key-update_where :
        (k : String) (rows : List A) → has_key k (update_where test f rows) ≡ has_key k rows
    unfolding update_where
    has_key-update_where k [] = refl
    has_key-update_where k (x ∷ rows) = ground (arith, same x, has_key-update_where k rows)

    -- A write to other columns keeps the keys.
    pub IsUnique-update_where :
        (rows : List A) → IsUnique rows → IsUnique (update_where test f rows)
    unfolding update_where
    IsUnique-update_where [] u = tt
    IsUnique-update_where (x ∷ rows) u =
        (ground (arith, same x, has_key-update_where (key x) rows), IsUnique-update_where rows u.1)
