-- ===== src/Services/Transaction/Booking.antt =====
-- The money movement of `transfer` in app/services/transaction_service.py against the booking of its
-- specification.
pub mod Holdings
use mathlib.Core.Option
use corebank_api.Repositories.Accounts
use corebank_api.Repositories.Transactions
use corebank_api.Prelude.{
  ◌||◌, subst, refl, leb, sym, ap, ◌==◌, not, ◌^◌, [], ◌<◌, ◌∷◌, pos_part, ◌≤ℤ◌, ◌++◌, pos, false,
  ℕ, inr, ◌∙◌, inl, Option-cases, Bool-cases, if◌then◌else◌, none, arith, ◌-ℤ◌, Bool, leb_ℤ, ◌+ℤ◌,
  some, true, ◌≡◌, Option, ℤ, List, String,
}
use corebank_api.Database.Engine.{dup_entry, server_error, same_trans, same, Engine}
use corebank_api.Database.Schema.{Transaction, Account, Db}
use corebank_api.Errors.{Exception, err, ok, Result}
use corebank_api.Repositories.Accounts.Money.{
  raise_balance, credit_ok, lower, IsSound-replace, debit_ok, IsSound, lowered, is_funded,
  is_account, raised,
}
use corebank_api.Database.Statement.{pure, ◌>>◌, raise_if, Stmt, execute_insert, Session}
use corebank_api.Database.Rows.{exists, find}
use corebank_api.Services.Transaction.Spec.{
  adjusted, TransferRequest, book, bank_of, adjust, holding_of, Bank, Holding,
}
use corebank_api.Services.Transaction.Movement.{apart, found_lowered, found_raised, find-same}
use corebank_api.Database.Rows.Replace.{exists-replace, count_of_find}
use corebank_api.Database.Tables.{transactions_table}
use corebank_api.Services.Transaction.{insufficient_funds, transfer_row, move_money}
use corebank_api.Database.Statement.Effects.{after_err, after_ok}
use corebank_api.Services.Transaction.Accepted.{
  credit_goes, exists_of_find, credit_overflows, one_funded, debit_lem,
}
use corebank_api.Database.Rows.Keys.{exists-append}
use corebank_api.Services.Transaction.Booking.Holdings.{
  holdings, holdings-lowered, holdings-raised, insert_taken, insert_fresh, row_lawful, Agrees,
}

module _ ⦃e : Engine⦄ where
  -- The rest of `move_money` after the debit, and after the credit.
  abbrev pub book_row : Transaction → Stmt Transaction
  book_row row = Transactions.insert row >> pure row

  abbrev pub credit_row : Transaction → String → ℤ → Stmt Transaction
  credit_row row rid cents = Accounts.credit rid cents >> book_row row

  pub move_money_debited :
      (row : Transaction) (sid rid : String) (cents : ℤ) (s mid : Session) (n : ℕ)
      → Accounts.debit sid cents s ≡ (ok n, mid)
      → move_money row sid rid cents s
        ≡ (raise_if (not (n == 1)) insufficient_funds >> credit_row row rid cents) mid
  unfolding move_money
  move_money_debited row sid rid cents s mid n debited =
      after_ok (Accounts.debit sid cents)
        (λ n. raise_if (not (n == 1)) insufficient_funds >> credit_row row rid cents) s debited

  pub agree_err :
      {A : Type 0} (db : Db) {r : Result A × Session} {d : Result A × Bank} {x : Exception}
      {t : Session}
      → r ≡ (err x, t)
      → d ≡ (err x, bank_of db)
      → Agrees db r d
  agree_err db {d = d} h k = subst (λ r. Agrees db r d) (sym h) k

  pub agree_ok :
      {A : Type 0} (db : Db) {r : Result A × Session} {d : Result A × Bank} {a : A} {t : Session}
      → r ≡ (ok a, t)
      → d ≡ (ok a, bank_of t.db)
      → Agrees db r d
  agree_ok db {d = d} h k = subst (λ r. Agrees db r d) (sym h) k

  -- the accounts after the debit, and after the credit
  abbrev after_debit : TransferRequest → ℤ → Session → Session
  after_debit q cents s = record s {
    db = record s.db { accounts = lowered q.sender_id cents s.db.accounts };
  }

  abbrev after_credit : TransferRequest → ℤ → Session → Session
  after_credit q cents s = record s {
    db = record s.db {
      accounts = raised q.receiver_id cents (lowered q.sender_id cents s.db.accounts);
    };
  }

  abbrev pub row_of : TransferRequest → ℤ → Transaction
  row_of q cents = transfer_row q.sender_id q.receiver_id cents q.id q.now

  abbrev debited_holdings : TransferRequest → ℤ → Db → String → Option Holding
  debited_holdings q cents db = adjust q.sender_id (λ x. x -ℤ cents) (holdings db.accounts)

  bank-after_credit :
      (q : TransferRequest) (cents : ℤ) {a : Account} (s : Session)
      → find (is_account q.sender_id) s.db.accounts ≡ some a
      → leb_ℤ cents a.balance ≡ true
      → (key : String)
      → adjust q.receiver_id (λ x. x +ℤ cents) (debited_holdings q cents s.db) key
        ≡ holdings (after_credit q cents s).db.accounts key
  bank-after_credit q cents {a} s fa enough key = sym (
      holdings-raised q.receiver_id cents (lowered q.sender_id cents s.db.accounts) key ∙ (λ i.
        if same key q.receiver_id
        then Option.map (adjusted (λ x. x +ℤ cents))
            (holdings-lowered q.sender_id cents {a = a} s.db.accounts key fa enough i)
        else holdings-lowered q.sender_id cents {a = a} s.db.accounts key fa enough i))

  taken_after :
      (row : Transaction) (rows : List Transaction) (key : String)
      → (exists (λ (t : Transaction). same t.transaction_id key) rows
          || same row.transaction_id key)
        ≡ exists (λ (t : Transaction). same t.transaction_id key) (rows ++ row ∷ [])
  taken_after row rows key =
      ground (arith, exists-append (λ (t : Transaction). same t.transaction_id key) rows (row ∷ []))

  -- the receiver's account after the debit, which is the sender's if the two ids name one account
  abbrev pub receiver_after : TransferRequest → ℤ → Account → Account
  receiver_after q cents b = if is_funded q.sender_id cents b then lower cents b else b

  module _ (q : TransferRequest) (cents : ℤ) {a b : Account} (s : Session) (sound : IsSound s.db)
      (positive : pos 1 ≤ℤ cents) (fa : find (is_account q.sender_id) s.db.accounts ≡ some a)
      (fb : find (is_account q.receiver_id) s.db.accounts ≡ some b)
      (enough : leb_ℤ cents a.balance ≡ true) where
    covers : cents ≤ℤ a.balance
    covers = ground arith

    debited : Accounts.debit q.sender_id cents s ≡ (ok 1, after_debit q cents s)
    debited = debit_lem q.sender_id cents s sound positive ∙ (λ i.
        (ok (one_funded q.sender_id cents {a = a} s.db sound fa covers i), after_debit q cents s))

    IsSound-mid : IsSound (after_debit q cents s).db
    IsSound-mid =
        let (_, _, accepted) = debit_ok q.sender_id cents s 1 positive (ap (λ x. x.0) debited) in
        IsSound-replace (is_funded q.sender_id cents) (lower cents) s.db (λ a. refl) accepted sound

    found_mid :
        find (is_account q.receiver_id) (after_debit q cents s).db.accounts
        ≡ some (receiver_after q cents b)
    found_mid = rw (found_lowered q.sender_id q.receiver_id cents s.db.accounts, fb)

    receiver :
        debited_holdings q cents s.db q.receiver_id ≡ some (holding_of (receiver_after q cents b))
    receiver =
        sym (holdings-lowered q.sender_id cents {a = a} s.db.accounts q.receiver_id fa enough)
        ∙ ap (Option.map holding_of) found_mid

    started :
        move_money (row_of q cents) q.sender_id q.receiver_id cents s
        ≡ credit_row (row_of q cents) q.receiver_id cents (after_debit q cents s)
    started =
        move_money_debited (row_of q cents) q.sender_id q.receiver_id cents s
          (after_debit q cents s) 1 debited

    -- the receiver's new balance does not fit
    pub large_lem :
        leb (10 ^ 15) (pos_part ((receiver_after q cents b).balance +ℤ cents)) ≡ true
        → Agrees s.db
            (move_money (row_of q cents) q.sender_id q.receiver_id cents s)
            (book q cents (bank_of s.db))
    unfolding bank_of
    large_lem large =
        agree_err s.db
          (started
            ∙ after_err (Accounts.credit q.receiver_id cents) (λ _. book_row (row_of q cents))
                (after_debit q cents s)
                (credit_overflows q.receiver_id cents {b = receiver_after q cents b}
                  (after_debit q cents s) IsSound-mid positive found_mid (ground arith)))
          (rw (receiver, large))

    credited :
        leb (10 ^ 15) (pos_part ((receiver_after q cents b).balance +ℤ cents)) ≡ false
        → (n : ℕ) × (Accounts.credit q.receiver_id cents (after_debit q cents s)
            ≡ (ok n, after_credit q cents s))
    credited fits =
        let (n, counted_rows) =
          credit_goes q.receiver_id cents {b = receiver_after q cents b} (after_debit q cents s)
            IsSound-mid positive found_mid (ground arith) in
        let left = (credit_ok q.receiver_id cents (after_debit q cents s) n counted_rows).0 in
        (n, λ i. (counted_rows i, left i))

    kept :
        (key : String)
        → exists (is_account key) (after_credit q cents s).db.accounts
          ≡ exists (is_account key) s.db.accounts
    kept key =
        exists-replace (is_account q.receiver_id) (raise_balance cents) (is_account key) (λ a. refl)
          (after_debit q cents s).db.accounts
        ∙ exists-replace (is_funded q.sender_id cents) (lower cents) (is_account key) (λ a. refl)
            s.db.accounts

    lawful_row :
        pos_part cents < 10 ^ 15
        → transactions_table.violation (after_credit q cents s).db (row_of q cents) ≡ none
    lawful_row small =
        row_lawful q.sender_id q.receiver_id cents q.id q.now (after_credit q cents s).db positive
          small
          (kept q.sender_id ∙ exists_of_find (is_account q.sender_id) {a = a} s.db.accounts fa)
          (kept q.receiver_id ∙ exists_of_find (is_account q.receiver_id) {a = b} s.db.accounts fb)

    -- the new balance fits, and the id is taken
    pub taken_lem :
        pos_part cents < 10 ^ 15
        → leb (10 ^ 15) (pos_part ((receiver_after q cents b).balance +ℤ cents)) ≡ false
        → exists (λ (t : Transaction). same t.transaction_id q.id) s.db.transactions ≡ true
        → Agrees s.db
            (move_money (row_of q cents) q.sender_id q.receiver_id cents s)
            (book q cents (bank_of s.db))
    unfolding bank_of transfer_row
    taken_lem small fits taken =
        let (n, done_credit) = credited fits in
        agree_err s.db
          (started
            ∙ after_ok (Accounts.credit q.receiver_id cents) (λ _. book_row (row_of q cents))
                (after_debit q cents s) done_credit
            ∙ after_err (Transactions.insert (row_of q cents)) (λ _. pure (row_of q cents))
                (after_credit q cents s)
                (insert_taken (row_of q cents) (after_credit q cents s) (lawful_row small) taken))
          (rw (receiver, fits, taken))

    -- the new balance fits, and the id is not in use
    pub booked_lem :
        pos_part cents < 10 ^ 15
        → leb (10 ^ 15) (pos_part ((receiver_after q cents b).balance +ℤ cents)) ≡ false
        → exists (λ (t : Transaction). same t.transaction_id q.id) s.db.transactions ≡ false
        → Agrees s.db
            (move_money (row_of q cents) q.sender_id q.receiver_id cents s)
            (book q cents (bank_of s.db))
    unfolding bank_of transfer_row
    booked_lem small fits fresh =
        let (n, done_credit) = credited fits in
        agree_ok s.db
          (started
            ∙ after_ok (Accounts.credit q.receiver_id cents) (λ _. book_row (row_of q cents))
                (after_debit q cents s) done_credit
            ∙ after_ok (Transactions.insert (row_of q cents)) (λ _. pure (row_of q cents))
                (after_credit q cents s)
                (insert_fresh (row_of q cents) (after_credit q cents s) (lawful_row small) fresh))
          (rw (receiver, fits, fresh)
            (λ i. (
              ok (row_of q cents),
              record {
                holding = λ key. bank-after_credit q cents {a = a} s fa enough key i;
                is_taken = λ key. taken_after (row_of q cents) s.db.transactions key i;
              },
            )))
