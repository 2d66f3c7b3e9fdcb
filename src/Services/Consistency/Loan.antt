-- ===== src/Services/Consistency/Loan.antt =====
-- app/repositories/loans.py and app/services/loan_service.py keep the database consistent.
use corebank_api.Repositories.Loans
use corebank_api.Services.Loan
use corebank_api.Database.Consistency.Keeps.{
  Keeps, Serves, Keeps-insert, Keeps-update, Keeps-delete, Serves-read,
}
use corebank_api.Database.Consistency.Blocks.{serves_rules}
use corebank_api.Database.Consistency.Wholes.{loans-Whole}
use corebank_api.Database.Tables.{loans_table}
use corebank_api.Database.Engine.{Engine}
use corebank_api.Database.Schema.{LoanStatus, Loan}
use corebank_api.Database.Statement.{has_key}
use corebank_api.Prelude.{refl, String}
use corebank_api.Services.Helpers.{Actor}

module _ ⦃e : Engine⦄ where
  insert-Keeps : (row : Loan) → Keeps (Loans.insert row)
  unfolding Loans.insert
  insert-Keeps row = Keeps-insert loans_table loans-Whole row

  delete-Keeps : (id : String) → Keeps (Loans.delete id)
  unfolding Loans.delete
  delete-Keeps id = Keeps-delete loans_table loans-Whole id

  set_status-Keeps : (id : String) (status : LoanStatus) → Keeps (Loans.set_status id status)
  unfolding Loans.set_status loans_table has_key
  set_status-Keeps id status =
      Keeps-update loans_table loans-Whole (has_key loans_table id)
        (λ l. record l { status = status }) id (λ _. refl) λ _ h. h

  pub create-Serves : (new_row : Loan.NewLoan) (id : String) → Serves (Loan.create new_row id)
  unfolding Loan.create
  create-Serves new_row id = search (serves_rules, insert-Keeps)

  pub set_status-Serves : (id : String) (status : LoanStatus) → Serves (Loan.set_status id status)
  unfolding Loan.set_status Loans.get
  set_status-Serves id status = search (serves_rules, set_status-Keeps)

  pub delete-Serves : (id : String) → Serves (Loan.delete id)
  unfolding Loan.delete
  delete-Serves id = search (serves_rules, delete-Keeps)

  pub list_all-Serves : Serves (Loan.list_all)
  unfolding Loan.list_all
  list_all-Serves = Serves-read Loans.list_all

  pub get-Serves : (id : String) (actor : Actor) → Serves (Loan.get id actor)
  unfolding Loan.get
  get-Serves id actor = search serves_rules

-- Every operation of the service keeps the database consistent.
pub ruleset loan_consistent =
    (create-Serves, set_status-Serves, delete-Serves, list_all-Serves, get-Serves)
