-- ===== src/Worker.antt =====
-- ingest_api/worker.py, and the scope of a transaction of ingest_api/database.py.
pub mod Marks
pub mod Stuck
pub mod Backlog
use unikernal_honeynet.Base.{ℕ, zero, suc, Option, none, some, ◌==◌, if◌then◌else◌}
use unikernal_honeynet.Schemas.{Settings}
use unikernal_honeynet.Models.{Db}
use unikernal_honeynet.Session.{Error, Result, ok, err, Exec, ◌>>=◌, ◌>>◌, Engine}
use unikernal_honeynet.Fleet.Inventory.{reconcile_expected_fleet}
use unikernal_honeynet.Fleet.Refresh.{refresh_fleet_health}
use unikernal_honeynet.Detections.Materialize.{materialize_detections}

abbrev pub scoped : {A : Type 0} → Db → Result (A × Db) → Result A × Db
scoped before (ok (a, db)) = (ok a, db)
scoped before (err e) = (err e, before)

-- `with session_scope() as db: body`: a commit at its end, and a rollback if it raises.
unfoldable pub session_scope : {A : Type 0} → Exec A → Db → Result A × Db
session_scope body db = scoped db (body db)

-- The body of the worker's transaction.
unfoldable pub worker_body : Settings → Engine → Exec ℕ
worker_body settings engine = do
  reconcile_expected_fleet settings engine
  refresh_fleet_health settings engine
  materialize_detections settings engine 500

-- `1 if processed else 5`, the seconds that the worker sleeps.
abbrev pub sleep_of : ℕ → ℕ
sleep_of processed = if processed == 0 then 5 else 1

-- A round of the worker's loop ends with its sleep, or with the exception that ends the worker.
pub data Round : Type 0 where
  sleeps : (seconds : ℕ) → Round
  dies : Error → Round

abbrev pub round_of : Result ℕ × Db → Round × Db
round_of (ok processed, db) = (sleeps (sleep_of processed), db)
round_of (err e, db) = (dies e, db)

unfoldable pub worker_round : Settings → Engine → Db → Round × Db
unfolding session_scope
worker_round settings engine db = round_of (session_scope (worker_body settings engine) db)

abbrev pub go_on : (Db → Option Db) → Round × Db → Option Db
go_on rest (sleeps seconds, db) = rest db
go_on rest (dies e, db) = none

-- The first rounds of the loop, each at its time, if no other process writes between them: the
-- database after them, and none if the worker died.
unfoldable pub worker_rounds : Settings → (ℕ → Engine) → ℕ → Db → Option Db
worker_rounds settings engines zero db = some db
worker_rounds settings engines (suc n) db =
    let rest = worker_rounds settings engines n in go_on rest (worker_round settings (engines n) db)
