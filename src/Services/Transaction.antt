-- ===== src/Services/Transaction.antt =====
-- app/services/transaction_service.py: money transfers and the reads of the ledger. The random id
-- and the time of a call are its arguments `id` and `now`.
pub mod Steps
pub mod Conservation
pub mod LockOrder
pub mod Locking
pub mod Movement
pub mod Effect
mod Accepted
pub mod Spec
pub mod Booking
pub mod Refinement
pub mod Alias
pub mod Visibility
pub mod Success
use corebank_api.Prelude.{
  ℕ, String, Bool, false, not, ◌&&◌, Option, none, some, List, ℤ, pos, leb_ℤ, str_eq, str_lt,
  if◌then◌else◌, ◌==◌,
}
use corebank_api.Errors.{Result, ok, err, Exception, app, not_found, business_rule, forbidden}
use corebank_api.Money.{Decimal, quantize}
use corebank_api.Database.Engine.{Engine}
use corebank_api.Database.Schema.{Account, Transaction, TransactionType}
use corebank_api.Database.Statement.{lift, Stmt, ◌>>=◌, ◌>>◌, pure, raise_if, or_raise, require_row}
use corebank_api.Database.Uow.{with_value, Action, fail, unit_of_work, read_only}
use corebank_api.Repositories.Accounts
use corebank_api.Repositories.Transactions
use corebank_api.Services.Helpers.{Actor, is_admin, owns, ensure_owner_or_admin}

-- `sorted((a, b))`
unfoldable pub sorted_pair : String → String → String × String
sorted_pair a b = if str_lt b a then (b, a) else (a, b)

abbrev pub insufficient_funds : Exception
insufficient_funds = app business_rule "Insufficient funds"

-- `locked[key]` of the dict {first: one, second: two}, whose second entry hides the first.
abbrev pub choose : {A : Type 0} → String → String → A → A → A
choose key second one two = if str_eq key second then two else one

-- The `record` of `transfer`.
unfoldable pub transfer_row : String → String → ℤ → String → ℕ → Transaction
transfer_row sender_id receiver_id amount id now = record {
  transaction_id = id;
  from_account_id = sender_id;
  to_account_id = some receiver_id;
  transaction_type = TransactionType.transfer;
  amount = amount;
  transaction_timestamp = now;
}

module _ ⦃e : Engine⦄ where
  -- the two `lock` calls of `transfer`, and what its `locked` dict gives for the two parties
  unfoldable pub lock_both : String → String → Stmt (Option Account × Option Account)
  lock_both sender_id receiver_id = do
    let (first, second) = sorted_pair sender_id receiver_id
    one ← Accounts.lock first
    two ← Accounts.lock second
    pure (choose sender_id second one two, choose receiver_id second one two)

  -- the debit, the credit and the ledger row
  unfoldable pub move_money : Transaction → String → String → ℤ → Stmt Transaction
  move_money record_row sender_id receiver_id amount = do
    declined ← Accounts.debit sender_id amount
    raise_if (not (declined == 1)) insufficient_funds
    Accounts.credit receiver_id amount
    Transactions.insert record_row
    pure record_row

  -- the body of the unit of work of `transfer`
  unfoldable pub transfer_body : Actor → String → String → ℤ → String → ℕ → Stmt Transaction
  transfer_body actor sender_id receiver_id amount id now = do
    locked ← lock_both sender_id receiver_id
    sender ← or_raise locked.0 (app not_found "Sender account not found")
    or_raise locked.1 (app not_found "Receiver account not found")
    raise_if (not (is_admin actor) && not (owns actor (some sender.customer_id)))
        (app forbidden "You may only transfer from your own account")
    move_money (transfer_row sender_id receiver_id amount id now) sender_id receiver_id amount

  -- `transfer` on an amount that `quantize` has brought to cents
  unfoldable pub transfer_cents : Actor → String → String → ℤ → String → ℕ → Action Transaction
  transfer_cents actor sender_id receiver_id amount id now =
      if leb_ℤ amount (pos 0)
      then fail (app business_rule "Transfer amount must be greater than zero")
      else if str_eq sender_id receiver_id
      then fail (app business_rule "Sender and receiver accounts must differ")
      else unit_of_work (transfer_body actor sender_id receiver_id amount id now)

  unfoldable pub transfer : Actor → String → String → Decimal → String → ℕ → Action Transaction
  transfer actor sender_id receiver_id amount id now =
      with_value (quantize amount) λ cents. transfer_cents actor sender_id receiver_id cents id now

  unfoldable pub list_all : Action (List Transaction)
  list_all = read_only Transactions.list_all

  -- one party of `_ensure_actor_sees_transaction`
  unfoldable pub sees_party : Actor → Option String → Stmt Bool
  sees_party actor none = pure false
  sees_party actor (some account_id) = if str_eq account_id "" then pure false else do
    account ← Accounts.get account_id
    pure (elim account [ none ↦ false | some a ↦ owns actor (some a.customer_id) ])

  unfoldable pub ensure_actor_sees_transaction : Actor → Transaction → Stmt (Unit {0})
  ensure_actor_sees_transaction actor txn = if is_admin actor then pure tt else do
    from_own ← sees_party actor (some txn.from_account_id)
    if from_own then pure tt else do
      to_own ← sees_party actor txn.to_account_id
      raise_if (not to_own) (app forbidden "You do not have access to this transaction")

  unfoldable pub get : String → Actor → Action Transaction
  get transaction_id actor = read_only do
    found ← Transactions.get transaction_id
    txn ← or_raise found (app not_found "Transaction not found")
    ensure_actor_sees_transaction actor txn
    pure txn

  unfoldable pub list_by_account : String → Actor → Action (List Transaction)
  list_by_account account_id actor = read_only do
    found ← Accounts.get account_id
    account ← or_raise found (app not_found "Account not found")
    lift (ensure_owner_or_admin actor (some account.customer_id))
    Transactions.list_by_account account_id

  unfoldable pub delete : String → Action (Unit {0})
  delete transaction_id = unit_of_work do
    gone ← Transactions.delete transaction_id
    require_row gone (app not_found "Transaction not found")

  unfoldable pub high_transactions : ℤ → Action (List Transactions.HighValue)
  high_transactions minimum = read_only (Transactions.customers_with_high_transactions minimum)
