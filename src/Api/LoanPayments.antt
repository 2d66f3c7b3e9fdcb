-- ===== src/Api/LoanPayments.antt =====
-- app/api/loan_payments.py
use corebank_api.Prelude.{List, ℕ, String}
use corebank_api.Services.LoanPayment
use corebank_api.Database.Engine.{Engine}
use corebank_api.Security.{View, admin_required}
use corebank_api.Database.Schema.{LoanPayment}

module _ ⦃e : Engine⦄ where
  unfoldable pub get_all : View (List LoanPayment)
  unfolding admin_required
  get_all = admin_required 200 λ _. LoanPayment.list_all

  unfoldable pub post : LoanPayment.NewLoanPayment → String → ℕ → View LoanPayment
  unfolding admin_required
  post new_row id now = admin_required 201 λ _. LoanPayment.create new_row id now

  unfoldable pub get_by_loan : String → View (List LoanPayment)
  unfolding admin_required
  get_by_loan loan_id = admin_required 200 λ _. LoanPayment.list_by_loan loan_id

  unfoldable pub get : String → View LoanPayment
  unfolding admin_required
  get id = admin_required 200 λ _. LoanPayment.get id

  unfoldable pub delete : String → View (Unit {0})
  unfolding admin_required
  delete id = admin_required 204 λ _. LoanPayment.delete id
