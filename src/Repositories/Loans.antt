-- ===== src/Repositories/Loans.antt =====
-- app/repositories/loans.py
use corebank_api.Prelude.{true, List, Option, String, ℕ}
use corebank_api.Database.Engine.{Engine}
use corebank_api.Database.Tables.{loans_table}
use corebank_api.Database.Schema.{LoanStatus, Loan}
use corebank_api.Database.Statement.{
  fetch_all, fetch_one, has_key, execute_update, execute_delete, execute_insert, Stmt,
}

module _ ⦃e : Engine⦄ where
  unfoldable pub insert : Loan → Stmt (Unit {0})
  insert row = execute_insert loans_table row

  unfoldable pub list_all : Stmt (List Loan)
  unfolding loans_table
  list_all = fetch_all loans_table (λ _. true)

  unfoldable pub get : String → Stmt (Option Loan)
  unfolding loans_table
  get loan_id = fetch_one loans_table (has_key loans_table loan_id)

  unfoldable pub set_status : String → LoanStatus → Stmt ℕ
  set_status loan_id status =
      execute_update loans_table (has_key loans_table loan_id) (λ l. record l { status = status })

  unfoldable pub delete : String → Stmt ℕ
  delete loan_id = execute_delete loans_table loan_id
