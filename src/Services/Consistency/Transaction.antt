-- ===== src/Services/Consistency/Transaction.antt =====
-- app/repositories/transactions.py and app/services/transaction_service.py keep the database consistent.
use corebank_api.Repositories.Transactions
use corebank_api.Services.Transaction
use corebank_api.Repositories.Accounts
use corebank_api.Services.Consistency.Account.{debit-Keeps, credit-Keeps}
use corebank_api.Database.Consistency.Keeps.{
  Keeps, Serves, Serves-if, Keeps-insert, Keeps-delete, Keeps-bind, Keeps-read, Serves-uow,
  Serves-read, Serves-value, Serves-fail,
}
use corebank_api.Database.Consistency.Blocks.{serves_rules}
use corebank_api.Database.Consistency.Leaves.{transactions-Whole}
use corebank_api.Database.Tables.{transactions_table}
use corebank_api.Database.Engine.{Engine}
use corebank_api.Database.Schema.{Transaction}
use corebank_api.Prelude.{ℕ, String, ℤ}
use corebank_api.Services.Helpers.{Actor}
use corebank_api.Money.{Decimal}

module _ ⦃e : Engine⦄ where
  insert-Keeps : (row : Transaction) → Keeps (Transactions.insert row)
  unfolding Transactions.insert
  insert-Keeps row = Keeps-insert transactions_table transactions-Whole row

  delete-Keeps : (id : String) → Keeps (Transactions.delete id)
  unfolding Transactions.delete
  delete-Keeps id = Keeps-delete transactions_table transactions-Whole id

  pub delete-Serves : (id : String) → Serves (Transaction.delete id)
  unfolding Transaction.delete
  delete-Serves id = search (serves_rules, delete-Keeps)

  pub list_all-Serves : Serves (Transaction.list_all)
  unfolding Transaction.list_all
  list_all-Serves = Serves-read Transactions.list_all

  pub get-Serves : (id : String) (actor : Actor) → Serves (Transaction.get id actor)
  unfolding Transaction.get
  get-Serves id actor = search serves_rules

  move_money-Keeps :
      (row : Transaction) (sender receiver : String) (amount : ℤ)
      → Keeps (Transaction.move_money row sender receiver amount)
  unfolding Transaction.move_money
  move_money-Keeps row sender receiver amount =
      search (Keeps-bind, Keeps-read, debit-Keeps, credit-Keeps, insert-Keeps)

  lock_both-Keeps : (sender receiver : String) → Keeps (Transaction.lock_both sender receiver)
  unfolding Transaction.lock_both Accounts.lock
  lock_both-Keeps sender receiver = record { at = λ s h. h }

  transfer_body-Keeps :
      (actor : Actor) (sender receiver : String) (amount : ℤ) (id : String) (now : ℕ)
      → Keeps (Transaction.transfer_body actor sender receiver amount id now)
  unfolding Transaction.transfer_body
  transfer_body-Keeps actor sender receiver amount id now =
      search (Keeps-bind, Keeps-read, lock_both-Keeps, move_money-Keeps)

  transfer_cents-Serves :
      (actor : Actor) (sender receiver : String) (amount : ℤ) (id : String) (now : ℕ)
      → Serves (Transaction.transfer_cents actor sender receiver amount id now)
  unfolding Transaction.transfer_cents
  transfer_cents-Serves actor sender receiver amount id now =
      search (Serves-if, Serves-fail, Serves-uow, transfer_body-Keeps)

  pub transfer-Serves :
      (actor : Actor) (sender receiver : String) (amount : Decimal) (id : String) (now : ℕ)
      → Serves (Transaction.transfer actor sender receiver amount id now)
  unfolding Transaction.transfer
  transfer-Serves actor sender receiver amount id now = search (Serves-value, transfer_cents-Serves)

  pub list_by_account-Serves :
      (id : String) (actor : Actor) → Serves (Transaction.list_by_account id actor)
  unfolding Transaction.list_by_account
  list_by_account-Serves id actor = search serves_rules

  pub high_transactions-Serves : (minimum : ℤ) → Serves (Transaction.high_transactions minimum)
  unfolding Transaction.high_transactions
  high_transactions-Serves minimum =
      Serves-read (Transactions.customers_with_high_transactions minimum)

-- Every operation of the service keeps the database consistent.
pub ruleset transaction_consistent = (
  delete-Serves, list_all-Serves, get-Serves, transfer-Serves, list_by_account-Serves,
  high_transactions-Serves,
)
