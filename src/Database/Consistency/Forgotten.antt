-- ===== src/Database/Consistency/Forgotten.antt =====
-- ON DELETE SET NULL of `fk_transaction_to` in migrations/001_initial_schema.sql: the ledger after an
-- account is deleted.
use corebank_api.Database.Consistency.Whole.{Whole}
use corebank_api.Database.Consistency.Edges.{edge-Grows, Edge-left}
use corebank_api.Database.Consistency.References.{Found, Found-left, holds-kept}
use corebank_api.Database.Consistency.Wholes.{tables}
use corebank_api.Database.Tables.{cards_table, transactions_table, accounts_table, forget_receiver}
use corebank_api.Database.Engine.{same, Engine}
use corebank_api.Prelude.{
  All-zip, inr, refl, inl, Bool-cases, All-map, arith, some, false, none, ◌≡◌, Option, [], not, ◌∷◌,
  if◌then◌else◌, All, String, List, Bool,
}
use corebank_api.Database.Schema.{Transaction, Account, Db}
use corebank_api.Database.Rows.{exists, replace, select}
use corebank_api.Database.Statement.{has_key}
use corebank_api.Database.Consistency.Laws.{IsLawful}
use corebank_api.Database.Consistency.Uniques.{accounts-Unique}
use corebank_api.Database.Constraints.{holds, nullable, refers}
use corebank_api.Database.Consistency.Children.{accounts-transactions-Edge, accounts-cards-Edge}
use corebank_api.Database.Rows.Keys.{UniqueKey-replace}

-- A property of the rows of a table after an UPDATE, row by row.
All-moved :
    {R : Type 0} (p : R → Bool) (f : R → R) (P : R → Type 0) (xs : List R)
    → All (λ x. P (if p x then f x else x)) xs
    → All P (replace p f xs)
All-moved p f P [] h = tt
All-moved p f P (x ∷ xs) h = (h.0, All-moved p f P xs h.1)

module _ ⦃e : Engine⦄ where
  abbrev left_accounts : String → Db → List Account
  left_accounts id db = select (λ r. not (has_key accounts_table id r)) db.accounts

  -- the ledger and the accounts after the deletion
  abbrev after_delete : String → Db → Db
  after_delete id db = record db {
    accounts = left_accounts id db;
    transactions = forget_receiver id db.transactions;
  }

  -- an account that is not deleted is still there
  still_there :
      (id : String) (accounts : List Account) (r : Option String)
      → refers id r ≡ false
      → nullable (λ v. not (holds (λ (a : Account). a.account_id) v accounts)) r ≡ false
      → nullable
          (λ v. not (
            holds
              (λ (a : Account). a.account_id)
              v
              (select (λ a. not (same a.account_id id)) accounts)))
          r
        ≡ false
  still_there id accounts none other h = refl
  still_there id accounts (some v) other h =
      rw (holds-kept (λ (a : Account). a.account_id) id v accounts other) h

  -- the receiver of a row is there, or is forgotten
  receiver_left :
      (id : String) (db : Db) (t : Transaction)
      → transactions_table.violation db t ≡ none
      → Found
          (λ (a : Account). a.account_id)
          (λ (u : Transaction). some u.from_account_id)
          (left_accounts id db)
          t
      → transactions_table.violation
          (after_delete id db)
          (if refers id t.to_account_id then record t { to_account_id = none } else t)
        ≡ none
  unfolding tables
  receiver_left id db t h from_found = elim (Bool-cases (refers id t.to_account_id)) [
    | inl gone ↦ rw gone (ground (arith, from_found))
    | inr other ↦ rw other (
        ground (arith, from_found, still_there id db.accounts t.to_account_id other (ground arith)))
  ]

  transactions_left :
      (id : String) (db : Db)
      → IsLawful transactions_table db
      → exists (accounts_table.referenced db) (select (has_key accounts_table id) db.accounts)
        ≡ false
      → IsLawful transactions_table (after_delete id db)
  unfolding tables
  transactions_left id db h free =
      let rows = db.transactions in
      let from_found =
        Found-left (λ (a : Account). a.account_id) (λ (u : Transaction). some u.from_account_id) id
          db.accounts (accounts_table.referenced db) rows (λ x k. ground (arith, k)) free
          (All-map (λ r. transactions_table.violation db r ≡ none)
            (Found (λ (a : Account). a.account_id) (λ (u : Transaction). some u.from_account_id)
              db.accounts)
            rows (λ r k. ground (arith, k)) h.1) in
      let forget : Transaction → Transaction = λ r. record r { to_account_id = none } in
      let gone : Transaction → Bool = λ r. refers id r.to_account_id in
      (
        UniqueKey-replace (λ (r : Transaction). r.transaction_id) gone forget (λ r. refl) rows h.0,
        All-moved gone forget (λ r. transactions_table.violation (after_delete id db) r ≡ none) rows
            (All-map
              (λ r.
                (transactions_table.violation db r ≡ none)
                × Found (λ (a : Account). a.account_id)
                    (λ (u : Transaction). some u.from_account_id) (left_accounts id db) r)
              (λ r.
                transactions_table.violation (after_delete id db) (if gone r then forget r else r)
                ≡ none)
              rows (λ r both. receiver_left id db r both.0 both.1)
              (All-zip (λ r. transactions_table.violation db r ≡ none)
                (Found (λ (a : Account). a.account_id) (λ (u : Transaction). some u.from_account_id)
                  (left_accounts id db))
                rows h.1 from_found)),
      )

  pub accounts-Whole : Whole accounts_table
  unfolding tables
  accounts-Whole = record {
    own = accounts-Unique;
    part = λ db c. c.accounts;
    grow = λ db rows c own g. record {
      customers = c.customers;
      users = c.users;
      branches = c.branches;
      accounts = own;
      loans = c.loans;
      loan_payments = c.loan_payments;
      employees = c.employees;
      cards = edge-Grows accounts_table cards_table accounts-cards-Edge db rows c.cards g;
      transactions =
          edge-Grows accounts_table transactions_table accounts-transactions-Edge db rows
            c.transactions g;
      tickets = c.tickets;
      credit_scores = c.credit_scores;
    };
    drop = λ db id c own free. record {
      customers = c.customers;
      users = c.users;
      branches = c.branches;
      accounts = own;
      loans = c.loans;
      loan_payments = c.loan_payments;
      employees = c.employees;
      cards =
          Edge-left accounts_table cards_table accounts-cards-Edge db id c.cards
            (λ x k. (ground (arith, k), tt)) free;
      transactions = transactions_left id db c.transactions free;
      tickets = c.tickets;
      credit_scores = c.credit_scores;
    };
  }
