-- ===== src/Repositories/LoanPayments.antt =====
-- app/repositories/loan_payments.py
use corebank_api.Database.Statement.{pure, ◌>>=◌}
use corebank_api.Prelude.{leb, true, if◌then◌else◌, Option, [], String, ◌∷◌, List, ℕ}
use corebank_api.Database.Schema.{LoanPayment}
use corebank_api.Database.Engine.{same, Engine}
use corebank_api.Database.Statement.{
  has_key, fetch_one, fetch_all, execute_delete, execute_insert, Stmt,
}
use corebank_api.Database.Tables.{loan_payments_table}

-- `ORDER BY payment_date`; rows of one date stay in the order of the table
unfoldable pub insert_by_date : LoanPayment → List LoanPayment → List LoanPayment
insert_by_date p [] = p ∷ []
insert_by_date p (x ∷ xs) =
    if leb p.payment_date x.payment_date then p ∷ x ∷ xs else x ∷ insert_by_date p xs

unfoldable pub by_payment_date : List LoanPayment → List LoanPayment
unfolding insert_by_date
by_payment_date [] = []
by_payment_date (x ∷ xs) = insert_by_date x (by_payment_date xs)

module _ ⦃e : Engine⦄ where
  unfoldable pub insert : LoanPayment → Stmt (Unit {0})
  insert row = execute_insert loan_payments_table row

  unfoldable pub list_all : Stmt (List LoanPayment)
  unfolding loan_payments_table
  list_all = fetch_all loan_payments_table (λ _. true)

  unfoldable pub get : String → Stmt (Option LoanPayment)
  unfolding loan_payments_table
  get loan_payment_id = fetch_one loan_payments_table (has_key loan_payments_table loan_payment_id)

  unfoldable pub list_by_loan : String → Stmt (List LoanPayment)
  unfolding loan_payments_table by_payment_date
  list_by_loan loan_id = do
    rows ← fetch_all loan_payments_table (λ p. same p.loan_id loan_id)
    pure (by_payment_date rows)

  unfoldable pub delete : String → Stmt ℕ
  delete loan_payment_id = execute_delete loan_payments_table loan_payment_id
