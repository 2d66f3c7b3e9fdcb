-- ===== src/Services/Transaction/Booking/Holdings.antt =====
-- The accounts of the tables as holdings of a bank, before and after the statements of `transfer`
-- in app/services/transaction_service.py.
use mathlib.Core.Option
use corebank_api.Repositories.Transactions
use corebank_api.Prelude.{
  ◌^◌, [], ◌<◌, ◌∷◌, pos_part, ◌≤ℤ◌, ◌++◌, pos, false, ℕ, inr, ◌∙◌, inl, Option-cases, Bool-cases,
  none, arith, ◌-ℤ◌, leb_ℤ, ◌+ℤ◌, some, true, ◌≡◌, Option, ℤ, List, String,
}
use corebank_api.Database.Engine.{dup_entry, server_error, same_trans, same, Engine}
use corebank_api.Database.Schema.{Transaction, Account, Db}
use corebank_api.Errors.{err, ok, Result}
use corebank_api.Repositories.Accounts.Money.{lowered, is_funded, is_account, raised}
use corebank_api.Database.Statement.{execute_insert, Session}
use corebank_api.Database.Rows.{exists, find}
use corebank_api.Services.Transaction.Spec.{bank_of, adjust, holding_of, Bank, Holding}
use corebank_api.Services.Transaction.Movement.{apart, found_lowered, found_raised, find-same}
use corebank_api.Database.Rows.Replace.{count_of_find}
use corebank_api.Database.Tables.{transactions_table}
use corebank_api.Services.Transaction.{transfer_row}

module _ ⦃e : Engine⦄ where
  abbrev pub holdings : List Account → String → Option Holding
  holdings rows key = Option.map holding_of (find (is_account key) rows)

  lowered_one :
      (sid : String) (cents : ℤ) (a : Account)
      → is_account sid a ≡ true
      → leb_ℤ cents a.balance ≡ true
      → is_funded sid cents a ≡ true
  lowered_one sid cents a h k = ground arith

  pub holdings-lowered :
      (sid : String) (cents : ℤ) {a : Account} (rows : List Account) (key : String)
      → find (is_account sid) rows ≡ some a
      → leb_ℤ cents a.balance ≡ true
      → holdings (lowered sid cents rows) key ≡ adjust sid (λ x. x -ℤ cents) (holdings rows) key
  holdings-lowered sid cents {a} rows key fa enough = elim (Bool-cases (same key sid)) [
    | inl p ↦
        let fk : find (is_account key) rows ≡ some a = find-same key sid rows p ∙ fa in
        let ea = (count_of_find (is_account sid) rows fa).1 in
        rw (p, found_lowered sid key cents rows, fk) (rw (lowered_one sid cents a ea enough))
    | inr p ↦ elim (Option-cases (find (is_account key) rows)) [
      | inl gone ↦ rw (p, found_lowered sid key cents rows, gone)
      | inr (c, f) ↦
          rw (p, found_lowered sid key cents rows, f)
            (rw (apart key sid c p (count_of_find (is_account key) rows f).1))
    ]
  ]

  pub holdings-raised :
      (rid : String) (cents : ℤ) (rows : List Account) (key : String)
      → holdings (raised rid cents rows) key ≡ adjust rid (λ x. x +ℤ cents) (holdings rows) key
  holdings-raised rid cents rows key = elim (Option-cases (find (is_account key) rows)) [
    | inl gone ↦ elim (Bool-cases (same key rid)) [
      | inl p ↦ rw (p, found_raised rid key cents rows, gone)
      | inr p ↦ rw (p, found_raised rid key cents rows, gone)
    ]
    | inr (c, f) ↦
        let ec = (count_of_find (is_account key) rows f).1 in
        elim (Bool-cases (same key rid)) [
          | inl p ↦
              rw (p, found_raised rid key cents rows, f) (rw (same_trans c.account_id key rid ec p))
          | inr p ↦ rw (p, found_raised rid key cents rows, f) (rw (apart key rid c p ec))
        ]
  ]

  -- A run of a block agrees with a decision on the bank that it began with.
  abbrev pub Agrees : {A : Type 0} → Db → Result A × Session → Result A × Bank → Type 0
  Agrees db (ok a, s) decision = decision ≡ (ok a, bank_of s.db)
  Agrees db (err x, s) decision = decision ≡ (err x, bank_of db)

  pub insert_taken :
      (row : Transaction) (s : Session)
      → transactions_table.violation s.db row ≡ none
      → exists (λ (t : Transaction). same t.transaction_id row.transaction_id) s.db.transactions
        ≡ true
      → Transactions.insert row s ≡ (err (server_error dup_entry), s)
  unfolding Transactions.insert transactions_table execute_insert
  insert_taken row s lawful taken = ground arith

  pub insert_fresh :
      (row : Transaction) (s : Session)
      → transactions_table.violation s.db row ≡ none
      → exists (λ (t : Transaction). same t.transaction_id row.transaction_id) s.db.transactions
        ≡ false
      → Transactions.insert row s
        ≡ (ok tt, record s { db = record s.db { transactions = s.db.transactions ++ row ∷ [] } })
  unfolding Transactions.insert transactions_table execute_insert
  insert_fresh row s lawful fresh = ground arith

  pub row_lawful :
      (sid rid : String) (amount : ℤ) (id : String) (now : ℕ) (db : Db)
      → pos 1 ≤ℤ amount
      → pos_part amount < 10 ^ 15
      → exists (is_account sid) db.accounts ≡ true
      → exists (is_account rid) db.accounts ≡ true
      → transactions_table.violation db (transfer_row sid rid amount id now) ≡ none
  unfolding transactions_table transfer_row
  row_lawful sid rid amount id now db positive fits from to = ground arith
