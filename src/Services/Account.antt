-- ===== src/Services/Account.antt =====
-- app/services/account_service.py
pub mod Access
pub mod SetBalance
use corebank_api.Repositories.Accounts
use corebank_api.Prelude.{none, some, [], if◌then◌else◌, pos, List, ℤ, Option, String, ℕ}
use corebank_api.Database.Engine.{Engine}
use corebank_api.Database.Uow.{
  and_then, integrity_guard, read_only, after, with_value, unit_of_work, Action,
}
use corebank_api.Database.Schema.{Account, AccountType}
use corebank_api.Services.Helpers.{ensure_owner_or_admin, is_admin, Actor}
use corebank_api.Money.{quantize, Decimal}
use corebank_api.Database.Statement.{require_row, value_or, ◌>>=◌, ◌>>◌, pure, Stmt}
use corebank_api.Errors.{ok, not_found, app}

-- The `record` of `create`.
unfoldable pub new_record : String → AccountType → String → String → ℕ → Account
new_record customer_id account_type branch_id id now = record {
  account_id = id;
  customer_id = customer_id;
  account_type = account_type;
  balance = pos 0;
  creation_date = now;
  branch_id = branch_id;
}

module _ ⦃e : Engine⦄ where
  unfoldable pub create : String → AccountType → String → String → ℕ → Action Account
  create customer_id account_type branch_id id now = unit_of_work (
      integrity_guard do
        Accounts.insert (new_record customer_id account_type branch_id id now)
        pure (new_record customer_id account_type branch_id id now))

  -- `customer_id = NULL` matches no row
  unfoldable pub list_owned : Option String → Stmt (List Account)
  list_owned none = pure []
  list_owned (some customer_id) = Accounts.list_by_customer customer_id

  unfoldable pub list_for_actor : Actor → Action (List Account)
  list_for_actor actor =
      read_only (if is_admin actor then Accounts.list_all else list_owned actor.customer_id)

  unfoldable pub get : String → Actor → Action Account
  get account_id actor = after (read_only (Accounts.get account_id)) λ found.
      and_then (value_or found (app not_found "Account not found"))
        λ row. and_then (ensure_owner_or_admin actor (some row.customer_id)) λ _. ok row

  -- the block of `set_balance`, on a balance that `quantize` has brought to cents
  unfoldable pub set_balance_block : String → ℤ → Stmt (Option Account)
  set_balance_block account_id balance = do
    written ← Accounts.set_balance account_id balance
    require_row written (app not_found "Account not found")
    Accounts.get account_id

  unfoldable pub set_balance_cents : String → ℤ → Action (Option Account)
  set_balance_cents account_id balance =
      unit_of_work (integrity_guard (set_balance_block account_id balance))

  unfoldable pub set_balance : String → Decimal → Action (Option Account)
  set_balance account_id balance = with_value (quantize balance) (set_balance_cents account_id)

  unfoldable pub delete : String → Action (Unit {0})
  delete account_id = unit_of_work (
      integrity_guard
        do gone ← Accounts.delete account_id; require_row gone (app not_found "Account not found"))
