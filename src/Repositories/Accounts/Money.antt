-- ===== src/Repositories/Accounts/Money.antt =====
-- The money-movement statements of app/repositories/accounts.py: which rows a debit and a credit
-- change, and what they do to the sum of the balances.
use corebank_api.Prelude.{
  ℕ, String, ◌≡◌, ◌≢◌, refl, ap, ◌∙◌, Bool, ◌&&◌, none, some, List, [], ◌∷◌, ℤ, pos, ◌+ℤ◌, ◌-ℤ◌,
  ◌≤ℤ◌, leb_ℤ, int_laws, arith, All,
}
use corebank_api.Errors.{ok}
use corebank_api.Database.Engine.{Engine, same}
use corebank_api.Database.Schema.{Transaction, Account, Db}
use corebank_api.Database.Rows.{find, count, replace}
use corebank_api.Database.Rows.Replace.{
  sum_of, sum_of-replace, All-replace, count_of_find, tally-eq-count,
}
use corebank_api.Database.Rows.Keys.{UniqueKey, UniqueKey-replace, count-UniqueKey}
use corebank_api.Database.Statement.{Session, counted}
use corebank_api.Database.Statement.Effects.{Passes, execute_update_ok, counted_changed}
use corebank_api.Database.Tables.{accounts_table}
use corebank_api.Repositories.Accounts.{debit, credit}

abbrev pub total_balance : Db → ℤ
total_balance db = sum_of (λ a. a.balance) db.accounts

-- A balance changed by a positive amount is another row.
pub lowered-ne : (a : Account) (x : ℤ) → pos 1 ≤ℤ x → a ≢ record a { balance = a.balance -ℤ x }
lowered-ne a x h e = grind (int_laws, ap (λ (b : Account). b.balance) e)

raised-ne : (a : Account) (x : ℤ) → pos 1 ≤ℤ x → a ≢ record a { balance = a.balance +ℤ x }
raised-ne a x h e = grind (int_laws, ap (λ (b : Account). b.balance) e)

module _ ⦃e : Engine⦄ where
  abbrev pub is_account : String → Account → Bool
  is_account id a = same a.account_id id

  abbrev pub is_funded : String → ℤ → Account → Bool
  is_funded id amount a = is_account id a && leb_ℤ amount a.balance

  abbrev pub lowered : String → ℤ → List Account → List Account
  lowered id amount =
      replace (is_funded id amount) (λ a. record a { balance = a.balance -ℤ amount })

  abbrev pub raised : String → ℤ → List Account → List Account
  raised id amount = replace (is_account id) (λ a. record a { balance = a.balance +ℤ amount })

  -- The new rows of an UPDATE of the accounts pass the constraints of the table.
  abbrev pub Accepted : (Account → Bool) → (Account → Account) → Db → Type 0
  Accepted p f db = Passes accounts_table p f db

  abbrev pub lower : ℤ → Account → Account
  lower amount a = record a { balance = a.balance -ℤ amount }

  abbrev pub raise_balance : ℤ → Account → Account
  raise_balance amount a = record a { balance = a.balance +ℤ amount }

  -- A debit of a positive amount counts the accounts with the id and the funds, and lowers them.
  pub debit_ok :
      (id : String) (amount : ℤ) (s : Session) (n : ℕ)
      → pos 1 ≤ℤ amount
      → (debit id amount s).0 ≡ ok n
      → (n ≡ count (is_funded id amount) s.db.accounts)
        × ((debit id amount s).1
            ≡ record s { db = record s.db { accounts = lowered id amount s.db.accounts } })
        × Accepted (is_funded id amount) (lower amount) s.db
  unfolding debit
  debit_ok id amount s n positive h =
      let (size, left, passed) =
        execute_update_ok accounts_table (is_funded id amount) (lower amount) s
          (λ i. (h i, (debit id amount s).1)) in
      (
        size
            ∙ tally-eq-count (is_funded id amount) (lower amount) (accounts_table.violation s.db)
                (counted accounts_table) s.db.accounts
                (λ a _.
                  counted_changed accounts_table a (lower amount a) (lowered-ne a amount positive)),
        left,
        passed,
      )

  pub credit_ok :
      (id : String) (amount : ℤ) (s : Session) (n : ℕ)
      → (credit id amount s).0 ≡ ok n
      → ((credit id amount s).1
          ≡ record s { db = record s.db { accounts = raised id amount s.db.accounts } })
        × Accepted (is_account id) (raise_balance amount) s.db
  unfolding credit
  credit_ok id amount s n h =
      let (_, left, passed) =
        execute_update_ok accounts_table (is_account id) (raise_balance amount) s
          (λ i. (h i, (credit id amount s).1)) in
      (left, passed)

  -- A debit that one account covers takes the amount from the sum.
  pub total-lowered :
      (id : String) (amount : ℤ) (rows : List Account)
      → count (is_funded id amount) rows ≡ 1
      → sum_of (λ a. a.balance) (lowered id amount rows) ≡ sum_of (λ a. a.balance) rows -ℤ amount
  total-lowered id amount rows one =
      rw
        (sum_of-replace (is_funded id amount) (lower amount) (λ a. a.balance) (pos 0 -ℤ amount) rows
          (λ a. omega int_laws) one)
        (omega int_laws)

  pub total-raised :
      (id : String) (amount : ℤ) (rows : List Account)
      → count (is_account id) rows ≡ 1
      → sum_of (λ a. a.balance) (raised id amount rows) ≡ sum_of (λ a. a.balance) rows +ℤ amount
  total-raised id amount rows one =
      sum_of-replace (is_account id) (raise_balance amount) (λ a. a.balance) amount rows (λ a. refl)
        one

  -- Under a unique key an account that is found is the one account with its id.
  pub one_account :
      (id : String) {a : Account} (rows : List Account)
      → UniqueKey (λ (r : Account). r.account_id) rows
      → find (is_account id) rows ≡ some a
      → count (is_account id) rows ≡ 1
  one_account id {a} rows unique found = omega (
    arith,
    (count_of_find (is_account id) {r = a} rows found).0,
    count-UniqueKey (λ (r : Account). r.account_id) id rows unique,
  )

  -- Account ids are unique, and every account passes the constraints of its table.
  pub record IsSound (db : Db) : Type 0 where
    pub keys : UniqueKey (λ (r : Account). r.account_id) db.accounts
    pub lawful : All (λ a. accounts_table.violation db a ≡ none) db.accounts

  lawful_balance :
      (db : Db) (a : Account) → accounts_table.violation db a ≡ none → pos 0 ≤ℤ a.balance
  unfolding accounts_table
  lawful_balance db a h = ground arith

  -- No balance is negative.
  pub IsSound-solvent :
      (db : Db) → IsSound db → All (λ (a : Account). pos 0 ≤ℤ a.balance) db.accounts
  IsSound-solvent db h = go db.accounts h.lawful
    where
      go :
          (rows : List Account)
          → All (λ a. accounts_table.violation db a ≡ none) rows
          → All (λ (a : Account). pos 0 ≤ℤ a.balance) rows
      go [] h = tt
      go (a ∷ rows) h = (lawful_balance db a h.0, go rows h.1)

  -- An accepted change of balances keeps the table sound.
  pub IsSound-replace :
      (p : Account → Bool) (f : Account → Account) (db : Db)
      → ((a : Account) → (f a).account_id ≡ a.account_id)
      → Accepted p f db
      → IsSound db
      → IsSound (record db { accounts = replace p f db.accounts })
  unfolding accounts_table
  IsSound-replace p f db stable passed h = record {
    keys = UniqueKey-replace (λ (r : Account). r.account_id) p f stable db.accounts h.keys;
    lawful =
        All-replace p f (λ a. accounts_table.violation db a ≡ none) db.accounts passed h.lawful;
  }

  -- The soundness of the accounts does not depend on the ledger.
  pub IsSound-transactions :
      (db : Db) (rows : List Transaction) → IsSound db → IsSound (record db { transactions = rows })
  unfolding accounts_table
  IsSound-transactions db rows h = record { keys = h.keys; lawful = h.lawful }
