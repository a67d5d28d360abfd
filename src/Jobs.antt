-- ===== src/Jobs.antt =====
-- What an export of ingest_api/services.py runs in: the session, of which an error undoes every
-- change, and the object store, whose objects stay when the session is rolled back.
use unikernal_honeynet.Base.{Option, none, some}
use unikernal_honeynet.Models.{Db}
use unikernal_honeynet.Session.{Error, Result, ok, err, Exec}

-- What an export raises: an error of the session, or one of the store's client.
pub data Failure : Type 0 where
  session : Error → Failure
  storage : Failure

pub data Outcome (S A : Type 0) : Type 0 where
  done : A → Db → S → Outcome S A
  failed : Failure → S → Outcome S A

-- The answer of a route.
pub data Answer (A : Type 0) : Type 0 where
  answered : A → Answer A
  raised : Failure → Answer A

abbrev pub Job : Type 0 → Type 0 → Type 0
Job S A = Db → S → Outcome S A

module _ {S : Type 0} where
  unfoldable pub ret : {A : Type 0} → A → Job S A
  ret a db s = done a db s

  abbrev pub and_then : {A B : Type 0} → Outcome S A → (A → Job S B) → Outcome S B
  and_then (done a db s) f = f a db s
  and_then (failed e s) f = failed e s

  infixl 10 ◌>>=◌ ◌>>◌
  unfoldable pub ◌>>=◌ : {A B : Type 0} → Job S A → (A → Job S B) → Job S B
  ◌>>=◌ m f db s = and_then (m db s) f

  abbrev pub ◌>>◌ : {A B : Type 0} → Job S A → Job S B → Job S B
  m >> n = m >>= λ _. n

  abbrev pub from_session : {A : Type 0} → S → Result (A × Db) → Outcome S A
  from_session s (ok (a, db)) = done a db s
  from_session s (err e) = failed (session e) s

  unfoldable pub in_session : {A : Type 0} → Exec A → Job S A
  in_session m db s = from_session s (m db)

  abbrev pub from_store : {A : Type 0} → Db → Option A × S → Outcome S A
  from_store db (none, s) = failed storage s
  from_store db (some a, s) = done a db s

  unfoldable pub in_store : {A : Type 0} → (S → Option A × S) → Job S A
  in_store call db s = from_store db (call s)

  abbrev pub end_of : {A : Type 0} → Db → Outcome S A → Answer A × Db × S
  end_of before (done a db s) = (answered a, db, s)
  end_of before (failed e s) = (raised e, before, s)

  -- The route runs the job, commits its changes, and answers; a failure rolls the session back.
  unfoldable pub commit : {A : Type 0} → Job S A → Db → S → Answer A × Db × S
  commit job db s = end_of db (job db s)
