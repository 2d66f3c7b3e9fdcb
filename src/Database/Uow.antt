-- ===== src/Database/Uow.antt =====
-- app/db/uow.py: the unit of work over a connection of the pool, and the read-only block.
pub mod Atomicity
use corebank_api.Prelude.{ℕ, ◌+◌, ◌-◌, [], if◌then◌else◌, ◌==◌}
use corebank_api.Errors.{
  Result, ok, err, Exception, app, db_error, integrity_error, conflict, bad_request, business_rule,
}
use corebank_api.Database.Schema.{Db}
use corebank_api.Database.Statement.{Session, Stmt}

-- The process: what is committed, and how many connections of the pool are lent out.
pub record World : Type 0 where
  pub committed : Db
  pub borrowed : ℕ

abbrev pub Action : Type 0 → Type 0
Action A = World → Result A × World

abbrev pub act_bind : {A B : Type 0} → Action A → (A → Action B) → Action B
act_bind m f w = let (r, w') = m w in elim r [ ok a ↦ f a w' | err x ↦ (err x, w') ]

abbrev pub fail : {A : Type 0} → Exception → Action A
fail x w = (err x, w)

-- Pure code that may raise, before the rest of an action.
abbrev pub with_value : {A B : Type 0} → Result A → (A → Action B) → Action B
with_value (ok a) f = f a
with_value (err x) f = fail x

-- `get_connection` of app/db/pool.py, and `conn.close()`, which returns the connection to the pool
-- and drops what it has not committed
unfoldable pub get_connection : World → World
get_connection w = record w { borrowed = w.borrowed + 1 }

unfoldable pub close : World → World
close w = record w { borrowed = w.borrowed - 1 }

abbrev pub begin : World → Session
begin w = record { db = w.committed; locks = [] }

abbrev pub commit : Session → World → World
commit s w = record w { committed = s.db }

-- the end of the block: COMMIT, or ROLLBACK and the exception again; `finally`, the close
abbrev pub finish : {A : Type 0} → World → Result A × Session → Result A × World
finish conn (ok a, s) = (ok a, close (commit s conn))
finish conn (err x, s) = (err x, close conn)

unfoldable pub unit_of_work : {A : Type 0} → Stmt A → Action A
unfolding get_connection close
unit_of_work body w = let conn = get_connection w in finish conn (body (begin conn))

unfoldable pub read_only : {A : Type 0} → Stmt A → Action A
unfolding get_connection close
read_only body w = let conn = get_connection w in ((body (begin conn)).0, close conn)

-- `integrity_guard` of app/services/_helpers.py
unfoldable pub translate : Exception → Exception
translate (db_error integrity_error n) =
    if n == 1062
    then app conflict "A record with these unique values already exists"
    else if n == 1452
    then app bad_request "A referenced record does not exist"
    else if n == 1451
    then app conflict "Cannot delete: this record is still referenced by others"
    else if n == 3819
    then app business_rule "A database constraint was violated"
    else if n == 4025
    then app business_rule "A database constraint was violated"
    else db_error integrity_error n
translate x = x

unfoldable pub integrity_guard : {A : Type 0} → Stmt A → Stmt A
unfolding translate
integrity_guard m s =
    let (r, s') = m s in elim r [ ok a ↦ (ok a, s') | err x ↦ (err (translate x), s') ]

-- Pure code that looks at the value of an action, and may raise.
abbrev pub and_then : {A B : Type 0} → Result A → (A → Result B) → Result B
and_then (ok a) f = f a
and_then (err x) f = err x

abbrev pub after : {A B : Type 0} → Action A → (A → Result B) → Action B
after m f w = let (r, w') = m w in (and_then r f, w')
