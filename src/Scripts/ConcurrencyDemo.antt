-- ===== src/Scripts/ConcurrencyDemo.antt =====
-- scripts/concurrency_demo.py: `naive_transfer`, which commits the debit and the credit one by one,
-- run by threads at the same time. A step is one statement with the commit that follows it; the
-- locks of the rows let no two of them overlap.
pub mod Naive
pub mod Overdraft
use corebank_api.Repositories.Accounts.Money.{lower, raise_balance, is_account}
use corebank_api.Errors.{err, ok, Exception, Result}
use corebank_api.Prelude.{
  none, [], ◌==◌, ◌∷◌, ltb_ℤ, some, if◌then◌else◌, List, ℕ, ℤ, Option, String,
}
use corebank_api.Database.Engine.{Engine}
use corebank_api.Database.Schema.{Db, Account}
use corebank_api.Database.Statement.{execute_update, Session}
use corebank_api.Database.Rows.{find}
use corebank_api.Repositories.Accounts.Money.{raise_balance, is_account}
use corebank_api.Database.Tables.{accounts_table}

-- The arguments of a call, the amount in cents.
pub record Call : Type 0 where
  pub sender : String
  pub receiver : String
  pub amount : ℤ

-- What a call does next, or how it ended: no row for the sender, too low a balance, an exception of
-- the driver in either UPDATE, or the return.
pub data Stage : Type 0 where
  reading debiting crediting crashed rejected done : Stage
  debit_failed credit_failed : Exception → Stage

abbrev pub settled : Result ℕ × Session → Db → Stage → (Exception → Stage) → Stage × Db
settled (ok _, s) db next failed = (next, s.db)
settled (err x, s) db next failed = (failed x, db)

abbrev pub checked : Option Account → ℤ → Stage
checked none amount = crashed
checked (some a) amount = if ltb_ℤ a.balance amount then rejected else debiting

-- Threads, and the database that they share.
pub record Storm : Type 0 where
  pub database : Db
  pub stage : ℕ → Stage

abbrev pub placed : (ℕ → Stage) → ℕ → Stage → ℕ → Stage
placed stage i p j = if i == j then p else stage j

module _ ⦃e : Engine⦄ where
  -- `UPDATE account SET balance = … WHERE account_id = id`
  unfoldable pub change_balance : String → (Account → Account) → Db → Result ℕ × Session
  change_balance id f db =
      execute_update accounts_table (is_account id) f (record { db = db; locks = [] })

  -- One step of `naive_transfer`.
  unfoldable pub naive_transfer : Call → Stage → Db → Stage × Db
  unfolding change_balance
  naive_transfer call reading db =
      (checked (find (is_account call.sender) db.accounts) call.amount, db)
  naive_transfer call debiting db =
      settled (change_balance call.sender (lower call.amount) db) db crediting debit_failed
  naive_transfer call crediting db =
      settled (change_balance call.receiver (raise_balance call.amount) db) db done credit_failed
  naive_transfer call stage db = (stage, db)

  -- The steps of the threads, in the order of a schedule.
  unfoldable pub storm : (ℕ → Call) → List ℕ → Storm → Storm
  unfolding naive_transfer
  storm calls [] s = s
  storm calls (i ∷ rest) s =
      let (p, db) = naive_transfer (calls i) (s.stage i) s.database in
      storm calls rest (record { database = db; stage = placed s.stage i p })
