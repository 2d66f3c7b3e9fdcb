-- ===== src/Database/Consistency/Whole.antt =====
-- Every table of the database is lawful, and what a change of one table needs for that to stay so.
use corebank_api.Database.Tables.{
  customers_table, users_table, branches_table, accounts_table, loans_table, loan_payments_table,
  employees_table, cards_table, transactions_table, tickets_table, credit_scores_table,
}
use corebank_api.Database.Consistency.Laws.{IsLawful, Unique}
use corebank_api.Database.Consistency.References.{Grows}
use corebank_api.Database.Engine.{Engine}
use corebank_api.Database.Statement.{has_key, Table}
use corebank_api.Database.Schema.{Db}
use corebank_api.Prelude.{false, ◌≡◌, not, String, List}
use corebank_api.Database.Rows.{exists, select}

module _ ⦃e : Engine⦄ where
  -- In every table the keys are unique, and every row passes the types, CHECK, UNIQUE and FOREIGN KEY
  -- constraints.
  pub record IsConsistent (db : Db) : Type 0 where
    pub customers : IsLawful customers_table db
    pub users : IsLawful users_table db
    pub branches : IsLawful branches_table db
    pub accounts : IsLawful accounts_table db
    pub loans : IsLawful loans_table db
    pub loan_payments : IsLawful loan_payments_table db
    pub employees : IsLawful employees_table db
    pub cards : IsLawful cards_table db
    pub transactions : IsLawful transactions_table db
    pub tickets : IsLawful tickets_table db
    pub credit_scores : IsLawful credit_scores_table db

  -- What the statements rely on for a table within the database.
  pub record Whole {R : Type 0} (t : Table R) : Type 0 where
    pub own : Unique t
    pub part : (db : Db) → IsConsistent db → IsLawful t db
    -- the rows of other tables find what they refer to as long as no key is lost
    pub grow :
        (db : Db) (rows : List R)
        → IsConsistent db
        → IsLawful t (t.with_rows db rows)
        → Grows t.key (t.rows db) rows
        → IsConsistent (t.with_rows db rows)
    -- or as long as no row refers to what is lost, after ON DELETE SET NULL
    pub drop :
        (db : Db) (id : String)
        → IsConsistent db
        → IsLawful t (t.with_rows db (select (λ r. not (has_key t id r)) (t.rows db)))
        → exists (t.referenced db) (select (has_key t id) (t.rows db)) ≡ false
        → IsConsistent
            (t.on_delete id (t.with_rows db (select (λ r. not (has_key t id r)) (t.rows db))))
