-- ===== src/Services/LoanPayment.antt =====
-- app/services/loan_payment_service.py
use corebank_api.Repositories.Loans
use corebank_api.Repositories.LoanPayments
use corebank_api.Prelude.{List, ℤ, Option, String, ℕ}
use corebank_api.Database.Engine.{Engine}
use corebank_api.Database.Uow.{read_only, integrity_guard, unit_of_work, after, Action}
use corebank_api.Database.Schema.{LoanPayment}
use mathlib.Core.Option.{get_or}
use corebank_api.Database.Statement.{or_raise, pure, require_row, ◌>>◌, value_or, ◌>>=◌}
use corebank_api.Errors.{not_found, app}

-- The `data` of `create`.
pub record NewLoanPayment : Type 0 where
  pub loan_id : String
  pub payment_date : Option ℕ
  pub payment_amount : ℤ
  pub remaining_balance : Option ℤ

-- The `record` of `create`.
unfoldable pub new_record : NewLoanPayment → String → ℕ → LoanPayment
new_record new_row id now = record {
  loan_payment_id = id;
  loan_id = new_row.loan_id;
  payment_date = get_or new_row.payment_date now;
  payment_amount = new_row.payment_amount;
  remaining_balance = new_row.remaining_balance;
}

module _ ⦃e : Engine⦄ where
  unfoldable pub create : NewLoanPayment → String → ℕ → Action LoanPayment
  create new_row id now = unit_of_work (
      integrity_guard
        do LoanPayments.insert (new_record new_row id now); pure (new_record new_row id now))

  unfoldable pub list_all : Action (List LoanPayment)
  list_all = read_only LoanPayments.list_all

  unfoldable pub get : String → Action LoanPayment
  get loan_payment_id =
      after (read_only (LoanPayments.get loan_payment_id))
        λ found. value_or found (app not_found "Loan payment not found")

  unfoldable pub list_by_loan : String → Action (List LoanPayment)
  list_by_loan loan_id = read_only do
    found ← Loans.get loan_id
    or_raise found (app not_found "Loan not found")
    LoanPayments.list_by_loan loan_id

  unfoldable pub delete : String → Action (Unit {0})
  delete loan_payment_id = unit_of_work (
      integrity_guard do
        gone ← LoanPayments.delete loan_payment_id
        require_row gone (app not_found "Loan payment not found"))
