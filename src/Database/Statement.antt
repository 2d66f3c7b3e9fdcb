-- ===== src/Database/Statement.antt =====
-- app/repositories/_base.py: a statement on a connection, by what it asks of the server. It reads
-- and writes the connection's view of the database, and ends in a value or in an exception.
pub mod Effects
use corebank_api.Prelude.{
  ℕ, zero, suc, String, Bool, not, Option, none, some, List, [], ◌∷◌, ◌++◌, if◌then◌else◌,
}
use corebank_api.Errors.{Result, ok, err, Exception}
use corebank_api.Database.Engine.{
  parse_error, Engine, same, server_error, dup_entry, row_is_referenced,
}
use corebank_api.Database.Schema.{Db}
use corebank_api.Database.Rows.{Outcome, failed, done, find, select, exists, count, update_rows}

-- What a connection holds in a transaction: its view, and the rows locked FOR UPDATE, in order.
pub record Session : Type 0 where
  pub db : Db
  pub locks : List String

abbrev pub Stmt : Type 0 → Type 0
Stmt A = Session → Result A × Session

infixl 5 ◌>>=◌ ◌>>◌
abbrev pub ◌>>=◌ : {A B : Type 0} → Stmt A → (A → Stmt B) → Stmt B
◌>>=◌ m f s = let (r, s') = m s in elim r [ ok a ↦ f a s' | err x ↦ (err x, s') ]

abbrev pub ◌>>◌ : {A B : Type 0} → Stmt A → Stmt B → Stmt B
m >> k = m >>= λ _. k

module _ {A : Type 0} where
  abbrev pub pure : A → Stmt A
  pure a s = (ok a, s)

  abbrev pub raise : Exception → Stmt A
  raise x s = (err x, s)

abbrev pub raise_if : Bool → Exception → Stmt (Unit {0})
raise_if c x s = (if c then err x else ok tt, s)

-- A row count that an UPDATE or a DELETE hands back, where zero rows are an error.
abbrev pub some_row : ℕ → Exception → Result (Unit {0})
some_row zero x = err x
some_row (suc n) x = ok tt

abbrev pub require_row : ℕ → Exception → Stmt (Unit {0})
require_row n x s = (some_row n x, s)

abbrev pub value_or : {A : Type 0} → Option A → Exception → Result A
value_or none x = err x
value_or (some a) x = ok a

abbrev pub or_raise : {A : Type 0} → Option A → Exception → Stmt A
or_raise o x s = (value_or o x, s)

-- A table of the schema: its rows in the database, its key, and its constraints.
pub record Table (R : Type 0) : Type 0 where
  pub rows : Db → List R
  pub with_rows : Db → List R → Db
  pub key : R → String
  pub same_row : Discrete R
  -- the first constraint, a unique column or a foreign key that a new row violates
  pub violation : Db → R → Option ℕ
  -- whether a row of another table refers to it by a foreign key with ON DELETE RESTRICT
  pub referenced : Db → R → Bool
  -- ON DELETE SET NULL
  pub on_delete : String → Db → Db

abbrev pub changed : {A : Type 0} → Dec A → ℕ
changed (yes _) = 0
changed (no _) = 1

module _ ⦃e : Engine⦄ {R : Type 0} where
  -- `SELECT … FROM t WHERE key = id`
  unfoldable pub has_key : Table R → String → R → Bool
  has_key t id r = same (t.key r) id

  abbrev pub fetch_all : Table R → (R → Bool) → Stmt (List R)
  fetch_all t p s = (ok (select p (t.rows s.db)), s)

  abbrev pub fetch_one : Table R → (R → Bool) → Stmt (Option R)
  fetch_one t p s = (ok (find p (t.rows s.db)), s)

  -- what a matched row adds to the row count of an UPDATE
  unfoldable pub counted : Table R → R → R → ℕ
  counted t old new = if e.found_rows then 1 else changed (t.same_row old new)

  abbrev pub store : Table R → Outcome R → Stmt ℕ
  store t (failed n) s = (err (server_error n), s)
  store t (done rows n) s = (ok n, record s { db = t.with_rows s.db rows })

  -- `UPDATE t SET … WHERE p`
  unfoldable pub execute_update : Table R → (R → Bool) → (R → R) → Stmt ℕ
  unfolding counted
  execute_update t p f s = store t (update_rows p f (t.violation s.db) (counted t) (t.rows s.db)) s

  -- `INSERT INTO t VALUES row`
  unfoldable pub execute_insert : Table R → R → Stmt (Unit {0})
  unfolding has_key
  execute_insert t row s = elim (t.violation s.db row) [
    | some n ↦ (err (server_error n), s)
    | none ↦
        if exists (has_key t (t.key row)) (t.rows s.db)
        then (err (server_error dup_entry), s)
        else (ok tt, record s { db = t.with_rows s.db (t.rows s.db ++ row ∷ []) })
  ]

  -- `DELETE FROM t WHERE key = id`
  unfoldable pub execute_delete : Table R → String → Stmt ℕ
  unfolding has_key
  execute_delete t id s =
      let gone = select (has_key t id) (t.rows s.db) in
      if exists (t.referenced s.db) gone then (err (server_error row_is_referenced), s) else (
        ok (count (has_key t id) (t.rows s.db)),
        record s {
          db = t.on_delete id (t.with_rows s.db (select (λ r. not (has_key t id r)) (t.rows s.db)));
        },
      )

-- `SET a = …, b = …`, in the order of the dict of new values.
abbrev pub assign : {A R : Type 0} → (A → R → R) → List A → R → R
assign set [] row = row
assign set (a ∷ rest) row = assign set rest (set a row)

-- `UPDATE t SET assignments WHERE key = id`; with no assignment the statement does not parse.
unfoldable pub execute_assignments :
    ⦃e : Engine⦄ {A R : Type 0} → Table R → (A → R → R) → String → List A → Stmt ℕ
unfolding execute_update has_key
execute_assignments t set id [] s = (err (server_error parse_error), s)
execute_assignments t set id (a ∷ rest) s =
    execute_update t (has_key t id) (assign set (a ∷ rest)) s

-- Pure code that may raise, in a block that runs statements.
abbrev pub lift : {A : Type 0} → Result A → Stmt A
lift r s = (r, s)
