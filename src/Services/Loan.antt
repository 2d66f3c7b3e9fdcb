-- ===== src/Services/Loan.antt =====
-- app/services/loan_service.py
use corebank_api.Repositories.Loans
use corebank_api.Prelude.{some, List, Option, ℤ, String, ℕ}
use corebank_api.Database.Engine.{Engine}
use corebank_api.Database.Uow.{and_then, read_only, integrity_guard, after, unit_of_work, Action}
use corebank_api.Database.Schema.{LoanType, Loan, LoanStatus}
use corebank_api.Services.Helpers.{ensure_owner_or_admin, Actor}
use mathlib.Core.Option.{get_or}
use corebank_api.Database.Statement.{value_or, require_row, pure, ◌>>=◌, ◌>>◌}
use corebank_api.Errors.{ok, not_found, app}

-- The `data` of `create`.
pub record NewLoan : Type 0 where
  pub customer_id : String
  pub loan_type : LoanType
  pub principal_amount : ℤ
  pub interest_rate : ℤ
  pub start_date : ℕ
  pub end_date : ℕ
  pub status : Option LoanStatus

-- The `record` of `create`.
unfoldable pub new_record : NewLoan → String → Loan
new_record new_row id = record {
  loan_id = id;
  customer_id = new_row.customer_id;
  loan_type = new_row.loan_type;
  principal_amount = new_row.principal_amount;
  interest_rate = new_row.interest_rate;
  start_date = new_row.start_date;
  end_date = new_row.end_date;
  status = get_or new_row.status LoanStatus.active;
}

module _ ⦃e : Engine⦄ where
  unfoldable pub create : NewLoan → String → Action Loan
  create new_row id =
      unit_of_work
        (integrity_guard do Loans.insert (new_record new_row id); pure (new_record new_row id))

  unfoldable pub list_all : Action (List Loan)
  list_all = read_only Loans.list_all

  unfoldable pub get : String → Actor → Action Loan
  get loan_id actor = after (read_only (Loans.get loan_id)) λ found.
      and_then (value_or found (app not_found "Loan not found"))
        λ row. and_then (ensure_owner_or_admin actor (some row.customer_id)) λ _. ok row

  unfoldable pub set_status : String → LoanStatus → Action (Option Loan)
  set_status loan_id status = unit_of_work (
      integrity_guard do
        written ← Loans.set_status loan_id status
        require_row written (app not_found "Loan not found")
        Loans.get loan_id)

  unfoldable pub delete : String → Action (Unit {0})
  delete loan_id = unit_of_work (
      integrity_guard
        do gone ← Loans.delete loan_id; require_row gone (app not_found "Loan not found"))
