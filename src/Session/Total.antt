-- ===== src/Session/Total.antt =====
-- Total correctness of the session's operations: from a given database they return, and the result
-- and the new database satisfy a postcondition.
use unikernal_honeynet.Base.{
  ℕ, suc, String, Bool, true, false, List, [], ◌∷◌, ◌++◌, ◌≡◌, refl, sym, ◌∙◌, subst, any, str_eq,
  All,
}
use unikernal_honeynet.Models.{Db}
use unikernal_honeynet.Session.{
  Error, ok, Exec, pure, require, ◌>>=◌, gets, modify, for_each, insert_unique, fresh_id, flush,
}

pub record Runs {A : Type 0} (m : Exec A) (db : Db) (P : A → Db → Type 0) : Type 0 where
  pub result : A
  pub after : Db
  pub runs : m db ≡ ok (result, after)
  pub holds : P result after

module _ {A : Type 0} where
  pub Runs-pure : (a : A) (db : Db) (P : A → Db → Type 0) → P a db → Runs (pure a) db P
  unfolding pure
  Runs-pure a db P h = record { result = a; after = db; runs = refl; holds = h }

  pub Runs-weaken :
      {m : Exec A} {db : Db} {P Q : A → Db → Type 0}
      → Runs m db P
      → ((a : A) (d : Db) → P a d → Q a d)
      → Runs m db Q
  Runs-weaken r f = record {
    result = r.result;
    after = r.after;
    runs = r.runs;
    holds = f r.result r.after r.holds;
  }

  pub Runs-gets : (f : Db → A) (db : Db) (P : A → Db → Type 0) → P (f db) db → Runs (gets f) db P
  unfolding gets
  Runs-gets f db P h = record { result = f db; after = db; runs = refl; holds = h }

pub Runs-modify :
    (f : Db → Db) (db : Db) (P : Unit {0} → Db → Type 0) → P tt (f db) → Runs (modify f) db P
unfolding modify
Runs-modify f db P h = record { result = tt; after = f db; runs = refl; holds = h }

module _ {A B : Type 0} where
  pub Runs-bind :
      (m : Exec A) (f : A → Exec B) {db : Db} {P : A → Db → Type 0} {Q : B → Db → Type 0}
      → Runs m db P
      → ((a : A) (d : Db) → P a d → Runs (f a) d Q)
      → Runs (m >>= f) db Q
  unfolding ◌>>=◌
  Runs-bind m f r next =
      let s = next r.result r.after r.holds in
      record { result = s.result; after = s.after; runs = rw r.runs s.runs; holds = s.holds }

same_end : {A : Type 0} (x y : A × Db) → ok x ≡ ok y → x ≡ y
same_end x y h = cc (h)

-- What two proofs say of one run.
module _ {A : Type 0} {m : Exec A} {s : Db} {P Q : A → Db → Type 0} where
  pub Runs-both : Runs m s P → Runs m s Q → Runs m s (λ a d. P a d × Q a d)
  Runs-both p q = record {
    result = p.result;
    after = p.after;
    runs = p.runs;
    holds = (
      p.holds,
      subst (λ (x : A × Db). Q x.0 x.1)
          (sym (same_end (p.result, p.after) (q.result, q.after) (sym p.runs ∙ q.runs))) q.holds,
    );
  }

-- Steps whose result is known.
module _ {B : Type 0} {db : Db} {Q : B → Db → Type 0} where
  pub gets_then :
      {A : Type 0} (f : Db → A) (g : A → Exec B) → Runs (g (f db)) db Q → Runs (gets f >>= g) db Q
  unfolding ◌>>=◌ gets
  gets_then f g s = record { result = s.result; after = s.after; runs = s.runs; holds = s.holds }

  pub modify_then :
      (f : Db → Db) (g : Unit {0} → Exec B) → Runs (g tt) (f db) Q → Runs (modify f >>= g) db Q
  unfolding ◌>>=◌ modify
  modify_then f g s = record { result = s.result; after = s.after; runs = s.runs; holds = s.holds }

  pub fresh_then :
      (g : ℕ → Exec B)
      → Runs (g db.next_id) (record db { next_id = suc db.next_id }) Q
      → Runs (fresh_id >>= g) db Q
  unfolding ◌>>=◌ fresh_id
  fresh_then g s = record { result = s.result; after = s.after; runs = s.runs; holds = s.holds }

  pub require_then :
      {test : Bool} (e : Error) (g : Unit {0} → Exec B)
      → test ≡ true
      → Runs (g tt) db Q
      → Runs (require test e >>= g) db Q
  unfolding ◌>>=◌ require
  require_then e g t s = record {
    result = s.result;
    after = s.after;
    runs = rw t s.runs;
    holds = s.holds;
  }

  pub flush_then :
      (g : Unit {0} → Exec B)
      → Runs
          (g tt)
          (record db { deployments = db.deployments ++ db.new_deployments; new_deployments = [] })
          Q
      → Runs (flush >>= g) db Q
  unfolding ◌>>=◌ flush
  flush_then g s = record { result = s.result; after = s.after; runs = s.runs; holds = s.holds }

-- A loop relates its first database to its last, if its body does and the relation composes; and
-- what the body establishes for an element, and steps keep, holds of every element.
module _ {A : Type 0} (I : Db → Type 0) (R : Db → Db → Type 0) (E : A → Db → Type 0)
    (R_refl : (s : Db) → I s → R s s) (R_trans : (s d e : Db) → R s d → R d e → R s e)
    (keeps : (s d : Db) → R s d → I d) (carries : (a : A) (s d : Db) → R s d → E a s → E a d)
    (body : A → Exec (Unit {0}))
    (step : (a : A) (s : Db) → I s → Runs (body a) s (λ _ d. R s d × E a d)) where
  pub Runs-for_each :
      (xs : List A) (s : Db) → I s → Runs (for_each xs body) s (λ _ d. R s d × All (λ a. E a d) xs)
  unfolding for_each
  Runs-for_each [] s h = Runs-pure tt s (λ _ d. R s d × Unit) (R_refl s h, tt)
  Runs-for_each (x ∷ xs) s h =
      Runs-bind (body x) (λ _. for_each xs body) (step x s h)
        λ _ d hd.
          Runs-weaken (Runs-for_each xs d (keeps s d hd.0))
            λ _ e he. (R_trans s d e hd.0 he.0, (carries x d e he.0 hd.1, he.1))

-- The same, where the body is run for elements of a kind.
module _ {A : Type 0} (H : A → Type 0) (I : Db → Type 0) (R : Db → Db → Type 0)
    (E : A → Db → Type 0) (R_refl : (s : Db) → I s → R s s)
    (R_trans : (s d e : Db) → R s d → R d e → R s e) (keeps : (s d : Db) → R s d → I d)
    (carries : (a : A) (s d : Db) → R s d → E a s → E a d) (body : A → Exec (Unit {0}))
    (step : (a : A) (s : Db) → H a → I s → Runs (body a) s (λ _ d. R s d × E a d)) where
  pub Runs-for_kind :
      (xs : List A) (s : Db)
      → All H xs
      → I s
      → Runs (for_each xs body) s (λ _ d. R s d × All (λ a. E a d) xs)
  unfolding for_each
  Runs-for_kind [] s k h = Runs-pure tt s (λ _ d. R s d × Unit) (R_refl s h, tt)
  Runs-for_kind (x ∷ xs) s k h =
      Runs-bind (body x) (λ _. for_each xs body) (step x s k.0 h)
        λ _ d hd.
          Runs-weaken (Runs-for_kind xs d k.1 (keeps s d hd.0))
            λ _ e he. (R_trans s d e hd.0 he.0, (carries x d e he.0 hd.1, he.1))

-- A new row whose key is new is inserted.
pub Runs-insert_unique :
    {A : Type 0} (key : A → String) (row : A) (rows : List A) (put : List A → Db → Db) (db : Db)
    (P : Unit {0} → Db → Type 0)
    → any (λ other. str_eq (key other) (key row)) rows ≡ false
    → P tt (put (rows ++ row ∷ []) db)
    → Runs (insert_unique key row rows put) db P
unfolding insert_unique
Runs-insert_unique key row rows put db P new h = record {
  result = tt;
  after = put (rows ++ row ∷ []) db;
  runs = rw new refl;
  holds = h;
}
