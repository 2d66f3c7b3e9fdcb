-- ===== src/Api/Accounts.antt =====
-- app/api/accounts.py
use corebank_api.Prelude.{Option, List, ℕ, String}
use corebank_api.Services.Account
use corebank_api.Database.Engine.{Engine}
use corebank_api.Security.{View, admin_required, jwt_required}
use corebank_api.Database.Schema.{Account, AccountType}
use corebank_api.Money.{Decimal}

module _ ⦃e : Engine⦄ where
  unfoldable pub get_all : View (List Account)
  unfolding jwt_required
  get_all = jwt_required 200 λ actor. Account.list_for_actor actor

  unfoldable pub post : String → AccountType → String → String → ℕ → View Account
  unfolding admin_required
  post customer_id account_type branch_id id now =
      admin_required 201 λ _. Account.create customer_id account_type branch_id id now

  unfoldable pub get : String → View Account
  unfolding jwt_required
  get id = jwt_required 200 λ actor. Account.get id actor

  unfoldable pub delete : String → View (Unit {0})
  unfolding admin_required
  delete id = admin_required 204 λ _. Account.delete id

  unfoldable pub put_balance : String → Decimal → View (Option Account)
  unfolding admin_required
  put_balance id balance = admin_required 200 λ _. Account.set_balance id balance
