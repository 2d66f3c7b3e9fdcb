-- ===== src/Api/Loans.antt =====
-- app/api/loans.py
use corebank_api.Prelude.{List, Option, String}
use corebank_api.Services.Loan
use corebank_api.Database.Engine.{Engine}
use corebank_api.Security.{View, jwt_required, admin_required}
use corebank_api.Database.Schema.{Loan, LoanStatus}

module _ ⦃e : Engine⦄ where
  unfoldable pub get_all : View (List Loan)
  unfolding admin_required
  get_all = admin_required 200 λ _. Loan.list_all

  unfoldable pub post : Loan.NewLoan → String → View Loan
  unfolding admin_required
  post new_row id = admin_required 201 λ _. Loan.create new_row id

  unfoldable pub get : String → View Loan
  unfolding jwt_required
  get id = jwt_required 200 λ actor. Loan.get id actor

  unfoldable pub delete : String → View (Unit {0})
  unfolding admin_required
  delete id = admin_required 204 λ _. Loan.delete id

  unfoldable pub put_status : String → LoanStatus → View (Option Loan)
  unfolding admin_required
  put_status id status = admin_required 200 λ _. Loan.set_status id status
