-- ===== src/Services/Consistency/Account.antt =====
-- app/repositories/accounts.py and app/services/account_service.py keep the database consistent.
use corebank_api.Repositories.Accounts
use corebank_api.Services.Account
use corebank_api.Database.Consistency.Keeps.{
  Keeps, Serves, Keeps-insert, Keeps-update, Keeps-delete, Serves-value,
}
use corebank_api.Database.Consistency.Blocks.{serves_rules}
use corebank_api.Database.Consistency.Forgotten.{accounts-Whole}
use corebank_api.Database.Tables.{accounts_table}
use corebank_api.Database.Engine.{Engine}
use corebank_api.Database.Schema.{AccountType, Account}
use corebank_api.Services.Helpers.{Actor}
use corebank_api.Database.Statement.{has_key}
use corebank_api.Prelude.{arith, ◌-ℤ◌, leb_ℤ, ◌&&◌, ℕ, ◌+ℤ◌, refl, ℤ, String}
use corebank_api.Money.{Decimal}

module _ ⦃e : Engine⦄ where
  insert-Keeps : (row : Account) → Keeps (Accounts.insert row)
  unfolding Accounts.insert
  insert-Keeps row = Keeps-insert accounts_table accounts-Whole row

  delete-Keeps : (id : String) → Keeps (Accounts.delete id)
  unfolding Accounts.delete
  delete-Keeps id = Keeps-delete accounts_table accounts-Whole id

  set_balance-Keeps : (id : String) (balance : ℤ) → Keeps (Accounts.set_balance id balance)
  unfolding Accounts.set_balance accounts_table has_key
  set_balance-Keeps id balance =
      Keeps-update accounts_table accounts-Whole (has_key accounts_table id)
        (λ a. record a { balance = balance }) id (λ _. refl) λ _ h. h

  pub debit-Keeps : (id : String) (amount : ℤ) → Keeps (Accounts.debit id amount)
  unfolding Accounts.debit accounts_table has_key
  debit-Keeps id amount =
      Keeps-update accounts_table accounts-Whole
        (λ a. has_key accounts_table id a && leb_ℤ amount a.balance)
        (λ a. record a { balance = a.balance -ℤ amount }) id (λ _. refl) λ a h. ground arith

  pub credit-Keeps : (id : String) (amount : ℤ) → Keeps (Accounts.credit id amount)
  unfolding Accounts.credit accounts_table has_key
  credit-Keeps id amount =
      Keeps-update accounts_table accounts-Whole (has_key accounts_table id)
        (λ a. record a { balance = a.balance +ℤ amount }) id (λ _. refl) λ _ h. h

  pub create-Serves :
      (customer_id : String) (account_type : AccountType) (branch_id id : String) (now : ℕ)
      → Serves (Account.create customer_id account_type branch_id id now)
  unfolding Account.create
  create-Serves customer_id account_type branch_id id now = search (serves_rules, insert-Keeps)

  pub delete-Serves : (id : String) → Serves (Account.delete id)
  unfolding Account.delete
  delete-Serves id = search (serves_rules, delete-Keeps)

  pub get-Serves : (id : String) (actor : Actor) → Serves (Account.get id actor)
  unfolding Account.get
  get-Serves id actor = search serves_rules

  pub list_for_actor-Serves : (actor : Actor) → Serves (Account.list_for_actor actor)
  unfolding Account.list_for_actor
  list_for_actor-Serves actor = search serves_rules

  pub set_balance-Serves :
      (id : String) (balance : Decimal) → Serves (Account.set_balance id balance)
  unfolding Account.set_balance Account.set_balance_cents Account.set_balance_block Accounts.get
  set_balance-Serves id balance = search (serves_rules, Serves-value, set_balance-Keeps)

-- Every operation of the service keeps the database consistent.
pub ruleset account_consistent =
    (create-Serves, delete-Serves, get-Serves, list_for_actor-Serves, set_balance-Serves)
