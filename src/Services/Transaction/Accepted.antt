-- ===== src/Services/Transaction/Accepted.antt =====
-- When the server accepts the statements of `transfer` of app/services/transaction_service.py.
use corebank_api.Repositories.Accounts
use corebank_api.Repositories.Transactions
use corebank_api.Prelude.{
  ◌≤◌, ◌∙◌, All-zip, inr, All-map, sym, subst, ap, -ℤ_parts, false, +ℤ_parts, inl, [], Bool-cases,
  ◌+ℤ◌, none, ◌∷◌, arith, ◌^◌, pos_part, ◌<◌, leb_ℤ, ℕ, some, ◌≤ℤ◌, true, pos, ◌≡◌, List, Bool, ℤ,
  String,
}
use corebank_api.Database.Engine.{server_error, out_of_range, same, Engine}
use corebank_api.Database.Tables.{accounts_table, transactions_table}
use corebank_api.Database.Schema.{Transaction, Db, Account}
use corebank_api.Database.Statement.{counted, execute_insert, Session}
use corebank_api.Services.Transaction.{transfer_row}
use corebank_api.Repositories.Accounts.Money.{
  lowered, one_account, lowered-ne, lower, raise_balance, is_account, IsSound, is_funded,
}
use corebank_api.Database.Rows.{count, exists, find}
use corebank_api.Errors.{err, ok}
use corebank_api.Database.Rows.Replace.{update_rows_fails, count-and-le, tally-eq-count}
use corebank_api.Database.Rows.Keys.{count-UniqueKey, UniqueKey, only_match}
use corebank_api.Database.Statement.Effects.{execute_update_goes, counted_changed}

module _ ⦃e : Engine⦄ where
  lower_lawful :
      (db : Db) (amount : ℤ) (x : Account)
      → pos 1 ≤ℤ amount
      → leb_ℤ amount x.balance ≡ true
      → accounts_table.violation db x ≡ none
      → accounts_table.violation db (lower amount x) ≡ none
  unfolding accounts_table
  lower_lawful db amount x positive funds h = ground (arith, -ℤ_parts x.balance amount)

  raise_lawful :
      (db : Db) (amount : ℤ) (x : Account)
      → pos 1 ≤ℤ amount
      → pos_part (x.balance +ℤ amount) < 10 ^ 15
      → accounts_table.violation db x ≡ none
      → accounts_table.violation db (raise_balance amount x) ≡ none
  unfolding accounts_table
  raise_lawful db amount x positive fits h = ground (arith, +ℤ_parts x.balance amount)

  raise_unlawful :
      (db : Db) (amount : ℤ) (x : Account)
      → 10 ^ 15 ≤ pos_part (x.balance +ℤ amount)
      → accounts_table.violation db (raise_balance amount x) ≡ some out_of_range
  unfolding accounts_table
  raise_unlawful db amount x large = ground arith

  funded_of :
      (id : String) (amount : ℤ) (x : Account)
      → is_funded id amount x ≡ true
      → leb_ℤ amount x.balance ≡ true
  funded_of id amount x h = ground arith

  funded_one :
      (id : String) (amount : ℤ) {a : Account} (rows : List Account)
      → find (is_account id) rows ≡ some a
      → amount ≤ℤ a.balance
      → 0 < count (is_funded id amount) rows
  funded_one id amount [] found enough = cc
  funded_one id amount {a} (x ∷ xs) found enough = elim (Bool-cases (is_account id x)) [
    | inl e ↦
        let same_row : x ≡ a = ground arith in
        let funds : amount ≤ℤ x.balance =
          subst (λ (r : Account). amount ≤ℤ r.balance) (sym same_row) enough in
        rw e (ground arith)
    | inr e ↦ rw e (omega (arith, funded_one id amount {a = a} xs (ground arith) enough))
  ]

  -- On sound accounts a debit goes through: it counts and lowers the accounts that cover it.
  pub debit_lem :
      (id : String) (amount : ℤ) (s : Session)
      → IsSound s.db
      → pos 1 ≤ℤ amount
      → Accounts.debit id amount s ≡ (
        ok (count (is_funded id amount) s.db.accounts),
        record s { db = record s.db { accounts = lowered id amount s.db.accounts } },
      )
  unfolding Accounts.debit accounts_table
  debit_lem id amount s sound positive =
      let rows = s.db.accounts in
      let lawful : Account → Type 0 = λ x. accounts_table.violation s.db x ≡ none in
      let funded = is_funded id amount in
      let size =
        tally-eq-count funded (lower amount) (accounts_table.violation s.db)
          (counted accounts_table) rows
          (λ x _.
            counted_changed accounts_table x (lower amount x) (lowered-ne x amount positive)) in
      execute_update_goes accounts_table funded (lower amount) s (
        All-map lawful (λ x. funded x ≡ true → lawful (lower amount x)) rows
          (λ x l f. lower_lawful s.db amount x positive (funded_of id amount x f) l) sound.lawful)
      ∙ (λ i. (ok (size i), record s { db = record s.db { accounts = lowered id amount rows } }))

  pub one_funded :
      (id : String) (amount : ℤ) {a : Account} (db : Db)
      → IsSound db
      → find (is_account id) db.accounts ≡ some a
      → amount ≤ℤ a.balance
      → count (is_funded id amount) db.accounts ≡ 1
  one_funded id amount {a} db sound found enough = omega (
    arith,
    funded_one id amount {a = a} db.accounts found enough,
    count-and-le (is_account id) (λ x. leb_ℤ amount x.balance) db.accounts,
    one_account id {a = a} db.accounts sound.keys found,
  )

  pub debit_goes :
      (id : String) (amount : ℤ) {a : Account} (s : Session)
      → IsSound s.db
      → pos 1 ≤ℤ amount
      → find (is_account id) s.db.accounts ≡ some a
      → amount ≤ℤ a.balance
      → (Accounts.debit id amount s).0 ≡ ok 1
  debit_goes id amount {a} s sound positive found enough =
      ap (λ x. x.0) (debit_lem id amount s sound positive)
      ∙ ap ok (one_funded id amount {a = a} s.db sound found enough)

  -- An account that does not cover the amount is not counted.
  pub none_funded :
      (id : String) (amount : ℤ) {a : Account} (rows : List Account)
      → UniqueKey (λ (r : Account). r.account_id) rows
      → find (is_account id) rows ≡ some a
      → leb_ℤ amount a.balance ≡ false
      → count (is_funded id amount) rows ≡ 0
  none_funded id amount {a} [] unique found short = cc
  none_funded id amount {a} (x ∷ xs) unique found short =
      let rest = count-UniqueKey (λ (r : Account). r.account_id) id (x ∷ xs) unique in
      elim (Bool-cases (is_account id x)) [
        | inl e ↦
            let same_row : x ≡ a = ground arith in
            let low : leb_ℤ amount x.balance ≡ false =
              subst (λ (r : Account). leb_ℤ amount r.balance ≡ false) (sym same_row) short in
            ground (arith, rest, count-and-le (is_account id) (λ a. leb_ℤ amount a.balance) xs)
        | inr e ↦
            let ih : count (is_funded id amount) xs ≡ 0 =
              none_funded id amount {a = a} xs unique.1 (ground arith) short in
            ground arith
      ]

  -- A credit that the column cannot hold is refused.
  pub credit_overflows :
      (id : String) (amount : ℤ) {b : Account} (s : Session)
      → IsSound s.db
      → pos 1 ≤ℤ amount
      → find (is_account id) s.db.accounts ≡ some b
      → 10 ^ 15 ≤ pos_part (b.balance +ℤ amount)
      → Accounts.credit id amount s ≡ (err (server_error out_of_range), s)
  unfolding Accounts.credit
  credit_overflows id amount {b} s sound positive found large =
      let rows = s.db.accounts in
      let matched : Account → Type 0 = λ x. same x.account_id id ≡ true → x ≡ b in
      let over : Account → Type 0 =
        λ x. accounts_table.violation s.db (raise_balance amount x) ≡ some out_of_range in
      rw (
        update_rows_fails (is_account id) (raise_balance amount) (accounts_table.violation s.db)
          (counted accounts_table) out_of_range {r = b} rows found
          (All-map matched (λ x. is_account id x ≡ true → over x) rows
            (λ x m f. subst over (sym (m f)) (raise_unlawful s.db amount b large))
            (only_match (λ (r : Account). r.account_id) id {a = b} rows sound.keys found)))

  pub credit_goes :
      (id : String) (amount : ℤ) {b : Account} (s : Session)
      → IsSound s.db
      → pos 1 ≤ℤ amount
      → find (is_account id) s.db.accounts ≡ some b
      → pos_part (b.balance +ℤ amount) < 10 ^ 15
      → (n : ℕ) × ((Accounts.credit id amount s).0 ≡ ok n)
  unfolding Accounts.credit
  credit_goes id amount {b} s sound positive found fits =
      let rows = s.db.accounts in
      let lawful : Account → Type 0 = λ x. accounts_table.violation s.db x ≡ none in
      let matched : Account → Type 0 = λ x. same x.account_id id ≡ true → x ≡ b in
      let found_rows =
        only_match (λ (r : Account). r.account_id) id {a = b} rows sound.keys found in
      (
        _,
        ap (λ x. x.0)
            (execute_update_goes accounts_table (is_account id) (raise_balance amount) s (
              All-map (λ x. matched x × lawful x)
                (λ x. is_account id x ≡ true → lawful (raise_balance amount x)) rows
                (λ x (m, l) f.
                  raise_lawful s.db amount x positive
                    (subst (λ (r : Account). pos_part (r.balance +ℤ amount) < 10 ^ 15) (sym (m f))
                      fits)
                    l)
                (All-zip matched lawful rows found_rows sound.lawful))),
      )

  pub exists_of_find :
      (p : Account → Bool) {a : Account} (rows : List Account)
      → find p rows ≡ some a
      → exists p rows ≡ true
  exists_of_find p [] h = cc
  exists_of_find p {a} (x ∷ xs) h = ground (arith, exists_of_find p {a = a} xs)

  pub insert_goes :
      (sid rid : String) (amount : ℤ) (id : String) (now : ℕ) (s : Session)
      → pos 1 ≤ℤ amount
      → pos_part amount < 10 ^ 15
      → exists (is_account sid) s.db.accounts ≡ true
      → exists (is_account rid) s.db.accounts ≡ true
      → exists (λ (t : Transaction). same t.transaction_id id) s.db.transactions ≡ false
      → (Transactions.insert (transfer_row sid rid amount id now) s).0 ≡ ok tt
  unfolding Transactions.insert transactions_table transfer_row execute_insert
  insert_goes sid rid amount id now s positive fits from to fresh = ground arith
