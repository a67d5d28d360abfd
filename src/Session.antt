-- ===== src/Session.antt =====
-- ingest_api/database.py: the session through which the services read and write. A service takes
-- the database and returns its result and the database, or an error of the session. The session
-- does not flush before a query (autoflush=False).
pub mod Keys
pub mod Total
use unikernal_honeynet.Base.{
  ℕ, String, Bool, true, false, List, [], ◌∷◌, ◌++◌, Option, none, some, ◌≡◌, if◌then◌else◌, any,
  str_eq,
}
use unikernal_honeynet.Models.{Db, Deployment, Event, Detection}

-- What the session raises: `one_or_none` on several rows, `one` on no row, a second row with a
-- unique column's value, and a value that its column does not take; and what Python raises: a time
-- before year 1, and a comparison of a time that has a zone with one that has none.
pub data Error : Type 0 where
  multiple_rows no_row integrity_error data_error overflow_error type_error : Error

pub data Result {ℓ} (A : Type ℓ) : Type ℓ where
  ok : A → Result A
  err : Error → Result A

abbrev pub Exec : Type 0 → Type 0
Exec A = Db → Result (A × Db)

unfoldable pub pure : {A : Type 0} → A → Exec A
pure a db = ok (a, db)

abbrev pub bind_result : {A B : Type 0} → Result (A × Db) → (A → Exec B) → Result (B × Db)
bind_result (ok (a, db)) f = f a db
bind_result (err e) f = err e

infixl 10 ◌>>=◌ ◌>>◌
unfoldable pub ◌>>=◌ : {A B : Type 0} → Exec A → (A → Exec B) → Exec B
◌>>=◌ m f db = bind_result (m db) f

abbrev pub ◌>>◌ : {A B : Type 0} → Exec A → Exec B → Exec B
m >> n = m >>= λ _. n

unfoldable pub gets : {A : Type 0} → (Db → A) → Exec A
gets f db = ok (f db, db)

unfoldable pub modify : (Db → Db) → Exec (Unit {0})
modify f db = ok (tt, f db)

-- Where the test fails, the error is raised.
unfoldable pub require : Bool → Error → Exec (Unit {0})
require test e db = if test then ok (tt, db) else err e

-- `for x in xs: body(x)`
unfoldable pub for_each : {A : Type 0} → List A → (A → Exec (Unit {0})) → Exec (Unit {0})
unfolding pure ◌>>=◌
for_each [] body = pure tt
for_each (x ∷ xs) body = body x >>= λ _. for_each xs body

-- `query.one_or_none()` and `query.one()` on the rows of the query.
unfoldable pub one_or_none : {A : Type 0} → List A → Exec (Option A)
one_or_none [] db = ok (none, db)
one_or_none (row ∷ []) db = ok (some row, db)
one_or_none (row ∷ other ∷ rest) db = err multiple_rows

unfoldable pub one : {A : Type 0} → List A → Exec A
one [] db = err no_row
one (row ∷ []) db = ok (row, db)
one (row ∷ other ∷ rest) db = err multiple_rows

-- A write to the attributes of the rows that a test selects.
unfoldable pub update_where : {A : Type 0} → (A → Bool) → (A → A) → List A → List A
update_where test f [] = []
update_where test f (row ∷ rows) = (if test row then f row else row) ∷ update_where test f rows

-- The flush of a new row into a table with a unique text column.
unfoldable pub insert_unique :
    {A : Type 0} → (A → String) → A → List A → (List A → Db → Db) → Exec (Unit {0})
insert_unique key row rows put db =
    if any (λ other. str_eq (key other) (key row)) rows
    then err integrity_error
    else ok (tt, put (rows ++ row ∷ []) db)

-- A new primary key.
unfoldable pub fresh_id : Exec ℕ
fresh_id db = ok (db.next_id, record db { next_id = ℕ.suc db.next_id })

-- The flush of the added deployments.
unfoldable pub flush : Exec (Unit {0})
unfolding modify
flush =
    modify
      λ db. record db { deployments = db.deployments ++ db.new_deployments; new_deployments = [] }

-- What the services take from outside: the time, random identifiers, SHA-1, and how the database
-- orders rows: of a decoy's deployments the one that was updated last, events by their time, and
-- detections by when they were last seen, latest first.
pub record Engine : Type 0 where
  pub now : ℕ
  pub uuid4 : ℕ → String
  pub sha1_hex : String → String
  pub latest : List Deployment → Option Deployment
  pub oldest_first : List Event → List Event
  pub newest_detections : List Detection → List Detection
