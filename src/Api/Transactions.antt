-- ===== src/Api/Transactions.antt =====
-- app/api/transactions.py. The minimum of the high-value report is a number of cents here; the view
-- hands on the text of the path, which the server converts.
use corebank_api.Prelude.{List, ℕ, ℤ, String}
use corebank_api.Services.Transaction
use corebank_api.Database.Engine.{Engine}
use corebank_api.Security.{View, jwt_required, admin_required}
use corebank_api.Money.{Decimal}
use corebank_api.Database.Schema.{Transaction}
use corebank_api.Repositories.Transactions.{HighValue}

module _ ⦃e : Engine⦄ where
  unfoldable pub get_all : View (List Transaction)
  unfolding admin_required
  get_all = admin_required 200 λ _. Transaction.list_all

  unfoldable pub get : String → View Transaction
  unfolding jwt_required
  get id = jwt_required 200 λ actor. Transaction.get id actor

  unfoldable pub delete : String → View (Unit {0})
  unfolding admin_required
  delete id = admin_required 204 λ _. Transaction.delete id

  unfoldable pub get_by_account : String → View (List Transaction)
  unfolding jwt_required
  get_by_account account_id = jwt_required 200 λ actor. Transaction.list_by_account account_id actor

  unfoldable pub post_transfer : String → String → Decimal → String → ℕ → View Transaction
  unfolding jwt_required
  post_transfer sender_id receiver_id amount id now =
      jwt_required 201 λ actor. Transaction.transfer actor sender_id receiver_id amount id now

  unfoldable pub get_high_value : ℤ → View (List HighValue)
  unfolding admin_required
  get_high_value minimum = admin_required 200 λ _. Transaction.high_transactions minimum
