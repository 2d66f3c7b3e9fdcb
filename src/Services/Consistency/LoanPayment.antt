-- ===== src/Services/Consistency/LoanPayment.antt =====
-- app/repositories/loan_payments.py and app/services/loan_payment_service.py keep the database consistent.
use corebank_api.Repositories.LoanPayments
use corebank_api.Services.LoanPayment
use corebank_api.Database.Consistency.Keeps.{Keeps, Serves, Keeps-insert, Keeps-delete, Serves-read}
use corebank_api.Database.Consistency.Blocks.{serves_rules}
use corebank_api.Database.Consistency.Leaves.{loan_payments-Whole}
use corebank_api.Database.Tables.{loan_payments_table}
use corebank_api.Database.Engine.{Engine}
use corebank_api.Database.Schema.{LoanPayment}
use corebank_api.Prelude.{ℕ, String}

module _ ⦃e : Engine⦄ where
  insert-Keeps : (row : LoanPayment) → Keeps (LoanPayments.insert row)
  unfolding LoanPayments.insert
  insert-Keeps row = Keeps-insert loan_payments_table loan_payments-Whole row

  delete-Keeps : (id : String) → Keeps (LoanPayments.delete id)
  unfolding LoanPayments.delete
  delete-Keeps id = Keeps-delete loan_payments_table loan_payments-Whole id

  pub create-Serves :
      (new_row : LoanPayment.NewLoanPayment) (id : String) (now : ℕ)
      → Serves (LoanPayment.create new_row id now)
  unfolding LoanPayment.create
  create-Serves new_row id now = search (serves_rules, insert-Keeps)

  pub delete-Serves : (id : String) → Serves (LoanPayment.delete id)
  unfolding LoanPayment.delete
  delete-Serves id = search (serves_rules, delete-Keeps)

  pub list_all-Serves : Serves (LoanPayment.list_all)
  unfolding LoanPayment.list_all
  list_all-Serves = Serves-read LoanPayments.list_all

  pub get-Serves : (id : String) → Serves (LoanPayment.get id)
  unfolding LoanPayment.get
  get-Serves id = search serves_rules

  pub list_by_loan-Serves : (id : String) → Serves (LoanPayment.list_by_loan id)
  unfolding LoanPayment.list_by_loan
  list_by_loan-Serves id = search serves_rules

-- Every operation of the service keeps the database consistent.
pub ruleset loan_payment_consistent =
    (create-Serves, delete-Serves, list_all-Serves, get-Serves, list_by_loan-Serves)
