-- ===== src/Services/Account/SetBalance.antt =====
-- The edge cases of `set_balance` in app/services/account_service.py.
use corebank_api.Repositories.Accounts
use corebank_api.Prelude.{
  below_or_above, inl, inr, ◌⊎◌, ◌≤◌, refl, ℕ, All-every, ◌∙◌, All-zip, subst, All-map, none, true,
  ap, arith, ◌^◌, some, ◌≡◌, ◌<◌, neg_part, ◌≤ℤ◌, pos, String, ℤ,
}
use corebank_api.Database.Engine.{
  out_of_range, same, server_error, check_violated, IsPyMysql, Engine,
}
use corebank_api.Database.Tables.{accounts_table}
use corebank_api.Services.Account.{set_balance_block, set_balance_cents}
use corebank_api.Database.Uow.{translate, begin, integrity_guard, World}
use corebank_api.Database.Schema.{Db, Account}
use corebank_api.Database.Rows.{find}
use corebank_api.Repositories.Accounts.Money.{is_account, IsSound}
use corebank_api.Errors.{
  data_error, ErrorClass, ok, operational_error, not_found, app, db_error, err,
}
use corebank_api.Database.Statement.{counted, Session}
use corebank_api.Database.Rows.Replace.{tally_zero, update_rows_fails}
use corebank_api.Database.Rows.Keys.{only_match}
use corebank_api.Database.Uow.Atomicity.{unit_of_work_err}
use corebank_api.Database.Statement.Effects.{counted_same, execute_update_goes}

module _ ⦃e : Engine⦄ where
  abbrev with_balance : ℤ → Account → Account
  with_balance cents a = record a { balance = cents }

  negative_violates :
      (db : Db) (cents : ℤ) (x : Account)
      → ¬ (pos 0 ≤ℤ cents)
      → neg_part cents < 10 ^ 15
      → accounts_table.violation db (with_balance cents x) ≡ some check_violated
  unfolding accounts_table
  negative_violates db cents x below fits = ground arith

  huge_violates :
      (db : Db) (cents : ℤ) (x : Account)
      → 10 ^ 15 ≤ neg_part cents
      → accounts_table.violation db (with_balance cents x) ≡ some out_of_range
  unfolding accounts_table
  huge_violates db cents x huge = ground arith

  update_fails :
      (id : String) (cents : ℤ) (number : ℕ) (s : Session) {a : Account}
      → find (is_account id) s.db.accounts ≡ some a
      → ((x : Account) → accounts_table.violation s.db (with_balance cents x) ≡ some number)
      → Accounts.set_balance id cents s ≡ (err (server_error number), s)
  unfolding Accounts.set_balance
  update_fails id cents number s {a} found violates = rw (
      update_rows_fails (is_account id) (with_balance cents) (accounts_table.violation s.db)
        (counted accounts_table) number {r = a} s.db.accounts found
        (All-every
          (λ x.
            is_account id x ≡ true
            → accounts_table.violation s.db (with_balance cents x) ≡ some number)
          s.db.accounts (λ x _. violates x)))

  -- An error of the UPDATE that `integrity_guard` does not translate leaves the service as it is.
  escapes :
      (id : String) (cents : ℤ) (w : World) (number : ℕ) (class : ErrorClass)
      → e.error_class number ≡ class
      → translate (db_error class number) ≡ db_error class number
      → (Accounts.set_balance id cents (begin w)).0 ≡ err (server_error number)
      → set_balance_cents id cents w ≡ (err (db_error class number), w)
  unfolding set_balance_cents set_balance_block integrity_guard server_error Accounts.set_balance
  escapes id cents w number class of kept h = unit_of_work_err _ w (rw h (rw of (ap err kept)))

  -- Setting an existing account to a negative number of cents leaves the database as it was and ends
  -- in an exception of the driver that `integrity_guard` does not make a business error of: the
  -- OperationalError of the violated CHECK for less than 10 ^ 15 cents below zero, and the DataError
  -- of a number that is out of range from there on.
  pub set_balance_negative :
      (id : String) (cents : ℤ) (w : World) {a : Account}
      → IsPyMysql e
      → find (is_account id) w.committed.accounts ≡ some a
      → ¬ (pos 0 ≤ℤ cents)
      → ((neg_part cents < 10 ^ 15)
          × (set_balance_cents id cents w ≡ (err (db_error operational_error check_violated), w)))
        ⊎ ((10 ^ 15 ≤ neg_part cents)
            × (set_balance_cents id cents w ≡ (err (db_error data_error out_of_range), w)))
  unfolding translate
  set_balance_negative id cents w {a} py found below =
      elim (below_or_above (neg_part cents) (10 ^ 15)) [
        | inl fits ↦ inl (
          fits,
          escapes id cents w check_violated operational_error py.checks refl (
              ap (λ x. x.0)
                (update_fails id cents check_violated (begin w) {a = a} found
                  (λ x. negative_violates w.committed cents x below fits))),
        )
        | inr huge ↦ inr (
          huge,
          escapes id cents w out_of_range data_error py.ranges refl (
              ap (λ x. x.0)
                (update_fails id cents out_of_range (begin w) {a = a} found
                  (λ x. huge_violates w.committed cents x huge))),
        )
      ]

  same_balance : (a x : Account) → x ≡ a → x ≡ with_balance a.balance x
  same_balance a x e = rw e

  -- An UPDATE that sets the balance that the account has counts no row.
  nothing_changed :
      (id : String) (s : Session) {a : Account}
      → IsPyMysql e
      → IsSound s.db
      → find (is_account id) s.db.accounts ≡ some a
      → (Accounts.set_balance id a.balance s).0 ≡ ok 0
  unfolding Accounts.set_balance
  nothing_changed id s {a} py sound found =
      let found_rows =
        only_match (λ (r : Account). r.account_id) id {a = a} s.db.accounts sound.keys found in
      let matched : Account → Type 0 = λ x. same x.account_id id ≡ true → x ≡ a in
      let lawful : Account → Type 0 = λ x. accounts_table.violation s.db x ≡ none in
      ap (λ x. x.0)
        (execute_update_goes accounts_table (is_account id) (with_balance a.balance) s (
          All-map (λ x. matched x × lawful x)
            (λ x. is_account id x ≡ true → lawful (with_balance a.balance x)) s.db.accounts
            (λ x (m, l) e. subst lawful (same_balance a x (m e)) l)
            (All-zip matched lawful s.db.accounts found_rows sound.lawful)))
      ∙ ap ok (
          tally_zero (is_account id) (with_balance a.balance) (accounts_table.violation s.db)
            (counted accounts_table) s.db.accounts
            (All-map matched
              (λ x.
                is_account id x ≡ true → counted accounts_table x (with_balance a.balance x) ≡ 0)
              s.db.accounts
              (λ x m e.
                counted_same accounts_table x (with_balance a.balance x) (same_balance a x (m e))
                  py.changed_rows)
              found_rows))

  -- Setting an account to the balance that it has raises "Account not found", since the row count of
  -- an UPDATE counts the changed rows only.
  pub set_balance_same :
      (id : String) (w : World) {a : Account}
      → IsPyMysql e
      → IsSound w.committed
      → find (is_account id) w.committed.accounts ≡ some a
      → set_balance_cents id a.balance w ≡ (err (app not_found "Account not found"), w)
  unfolding set_balance_cents set_balance_block integrity_guard Accounts.set_balance
  set_balance_same id w {a} py sound found =
      unit_of_work_err _ w (declined (nothing_changed id (begin w) {a = a} py sound found))
    where
      declined :
          (Accounts.set_balance id a.balance (begin w)).0 ≡ ok 0
          → (integrity_guard (set_balance_block id a.balance) (begin w)).0
            ≡ err (app not_found "Account not found")
      declined h = rw h
