-- ===== src/Repositories/Accounts.antt =====
-- app/repositories/accounts.py
pub mod Money
use corebank_api.Prelude.{String, true, ◌&&◌, Option, List, [], ◌∷◌, ◌++◌, ℕ, ℤ, ◌+ℤ◌, ◌-ℤ◌, leb_ℤ}
use corebank_api.Database.Engine.{Engine, same}
use corebank_api.Database.Schema.{Account}
use corebank_api.Database.Statement.{
  Stmt, fetch_one, fetch_all, execute_insert, execute_update, execute_delete, has_key,
}
use corebank_api.Database.Tables.{accounts_table}

module _ ⦃e : Engine⦄ where
  unfoldable pub insert : Account → Stmt (Unit {0})
  unfolding execute_insert accounts_table
  insert row = execute_insert accounts_table row

  unfoldable pub list_all : Stmt (List Account)
  unfolding accounts_table
  list_all = fetch_all accounts_table (λ _. true)

  unfoldable pub get : String → Stmt (Option Account)
  unfolding accounts_table has_key
  get account_id = fetch_one accounts_table (has_key accounts_table account_id)

  unfoldable pub list_by_customer : String → Stmt (List Account)
  unfolding accounts_table
  list_by_customer customer_id = fetch_all accounts_table (λ a. same a.customer_id customer_id)

  unfoldable pub set_balance : String → ℤ → Stmt ℕ
  unfolding accounts_table has_key execute_update
  set_balance account_id balance =
      execute_update accounts_table (has_key accounts_table account_id)
        (λ a. record a { balance = balance })

  unfoldable pub delete : String → Stmt ℕ
  unfolding accounts_table execute_delete
  delete account_id = execute_delete accounts_table account_id

  -- `SELECT … FOR UPDATE`
  unfoldable pub lock : String → Stmt (Option Account)
  unfolding accounts_table has_key
  lock account_id s =
      fetch_one accounts_table (has_key accounts_table account_id)
        (record s { locks = s.locks ++ account_id ∷ [] })

  unfoldable pub debit : String → ℤ → Stmt ℕ
  unfolding accounts_table has_key execute_update
  debit account_id amount =
      execute_update accounts_table
        (λ a. has_key accounts_table account_id a && leb_ℤ amount a.balance)
        (λ a. record a { balance = a.balance -ℤ amount })

  unfoldable pub credit : String → ℤ → Stmt ℕ
  unfolding accounts_table has_key execute_update
  credit account_id amount =
      execute_update accounts_table (has_key accounts_table account_id)
        (λ a. record a { balance = a.balance +ℤ amount })
