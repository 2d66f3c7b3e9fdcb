-- ===== src/Services/Transaction/Success.antt =====
-- When `transfer` of app/services/transaction_service.py goes through.
use corebank_api.Repositories.Accounts
use corebank_api.Repositories.Transactions
use corebank_api.Prelude.{
  if◌then◌else◌, str_eq_iff, All, str_eq, ◌++◌, ◌&&◌, not, ◌||◌, refl, ◌∙◌, inr, sym, subst, ap,
  false, inl, [], Bool-cases, ◌+ℤ◌, none, ◌∷◌, arith, ◌^◌, pos_part, ◌<◌, leb_ℤ, ℕ, some, ◌≤ℤ◌,
  true, pos, ◌≡◌, List, Bool, ℤ, String,
}
use corebank_api.Database.Engine.{same_refl, same, Engine}
use corebank_api.Database.Tables.{accounts_table}
use corebank_api.Database.Schema.{Transaction, Db, Account}
use corebank_api.Database.Statement.{value_or, Session}
use corebank_api.Services.Transaction.Spec.{ledger_row}
use corebank_api.Services.Transaction.{
  transfer_cents, lock_both, transfer, sorted_pair, transfer_body, move_money, transfer_row,
}
use corebank_api.Repositories.Accounts.Money.{
  raised, credit_ok, IsSound-replace, lowered, debit_ok, lower, raise_balance, is_account, IsSound,
  is_funded,
}
use corebank_api.Database.Rows.{exists, find}
use corebank_api.Errors.{forbidden, not_found, app, err, Result, ok}
use corebank_api.Database.Rows.Replace.{exists-replace, count_of_find}
use corebank_api.Services.Transaction.Movement.{found_lowered, distinct_sym, apart}
use corebank_api.Services.Helpers.{owns, is_admin, Actor}
use corebank_api.Services.Transaction.Steps.{lock_both_lem}
use corebank_api.Database.Uow.{begin, unit_of_work, finish, World}
use corebank_api.Money.{quantize, Decimal}
use corebank_api.Services.Transaction.Accepted.{
  debit_goes, credit_goes, insert_goes, exists_of_find,
}

pub guard_open : (a b : Bool) → (a || b) ≡ true → (not a && not b) ≡ false
guard_open a b h = ground arith

module _ ⦃e : Engine⦄ where
  pub not_low : (x : ℤ) → pos 1 ≤ℤ x → leb_ℤ x (pos 0) ≡ false
  not_low x h = ground arith

  names_differ : (sid rid : String) → same sid rid ≡ false → str_eq sid rid ≡ false
  names_differ sid rid h = elim (Bool-cases (str_eq sid rid)) [
    | inl p ↦
        cc (h, subst (λ other. same sid other ≡ true) ((str_eq_iff sid rid).0 p) (same_refl sid))
    | inr p ↦ p
  ]

  -- A step of a block whose first part ends in a value.
  bind_goes :
      {A B T : Type 0} (r : Result A) (k : A → Result B × T) (t : T) {a : A} {b : B}
      → r ≡ ok a
      → (k a).0 ≡ ok b
      → (let out : Result B × T = elim r [ ok a ↦ k a | err x ↦ (err x, t) ] in out.0 ≡ ok b)
  bind_goes r k t h g = rw h g

  move_money_goes :
      (sid rid : String) (amount : ℤ) (id : String) (now : ℕ) {a b : Account} (s : Session)
      → IsSound s.db
      → pos 1 ≤ℤ amount
      → same sid rid ≡ false
      → find (is_account sid) s.db.accounts ≡ some a
      → find (is_account rid) s.db.accounts ≡ some b
      → amount ≤ℤ a.balance
      → pos_part amount < 10 ^ 15
      → pos_part (b.balance +ℤ amount) < 10 ^ 15
      → exists (λ (t : Transaction). same t.transaction_id id) s.db.transactions ≡ false
      → (move_money (transfer_row sid rid amount id now) sid rid amount s).0
        ≡ ok (transfer_row sid rid amount id now)
  unfolding move_money
  move_money_goes sid rid amount id now {a} {b} s sound positive distinct fa fb enough small fits
        fresh =
      let rows = s.db.accounts in
      let row = transfer_row sid rid amount id now in
      let s1 = (Accounts.debit sid amount s).1 in
      let s2 = (Accounts.credit rid amount s1).1 in
      let debited = debit_goes sid amount {a = a} s sound positive fa enough in
      let (_, lowering, accepted) = debit_ok sid amount s 1 positive debited in
      let mid : Db = record s.db { accounts = lowered sid amount rows } in
      let sound_mid : IsSound mid =
        IsSound-replace (is_funded sid amount) (lower amount) s.db (λ a. refl) accepted sound in
      let nb : is_account sid b ≡ false =
        apart rid sid b (distinct_sym sid rid distinct)
          (count_of_find (is_account rid) rows fb).1 in
      let found_mid : find (is_account rid) mid.accounts ≡ some b =
        rw (found_lowered sid rid amount rows, fb) (rw nb) in
      let (n, credited) : (n : ℕ) × ((Accounts.credit rid amount s1).0 ≡ ok n) =
        subst (λ (t : Session). (n : ℕ) × ((Accounts.credit rid amount t).0 ≡ ok n)) (sym lowering)
          (credit_goes rid amount {b = b} (record s { db = mid }) sound_mid positive found_mid
            fits) in
      let raising = (credit_ok rid amount s1 n credited).0 in
      let at : s2 ≡ record s { db = record mid { accounts = raised rid amount mid.accounts } } =
        raising
        ∙ ap
            (λ (t : Session). record t {
              db = record t.db { accounts = raised rid amount t.db.accounts };
            })
            lowering in
      let kept : (key : String)
          → exists (is_account key) (raised rid amount mid.accounts)
            ≡ exists (is_account key) rows =
        λ key.
          exists-replace (is_account rid) (raise_balance amount) (is_account key) (λ a. refl)
            mid.accounts
          ∙ exists-replace (is_funded sid amount) (lower amount) (is_account key) (λ a. refl)
              rows in
      let inserted : (Transactions.insert row s2).0 ≡ ok tt =
        subst (λ (t : Session). (Transactions.insert row t).0 ≡ ok tt) (sym at)
          (insert_goes sid rid amount id now
            (record s { db = record mid { accounts = raised rid amount mid.accounts } }) positive
            small (kept sid ∙ exists_of_find (is_account sid) {a = a} rows fa)
            (kept rid ∙ exists_of_find (is_account rid) {a = b} rows fb) fresh) in
      bind_goes (Accounts.debit sid amount s).0 _ s1 debited (
        bind_goes (Accounts.credit rid amount s1).0 _ s2 credited
          (bind_goes (Transactions.insert row s2).0 _ (Transactions.insert row s2).1 inserted refl))

  transfer_body_goes :
      (actor : Actor) (sid rid : String) (amount : ℤ) (id : String) (now : ℕ) {a b : Account}
      (s : Session)
      → IsSound s.db
      → pos 1 ≤ℤ amount
      → same sid rid ≡ false
      → find (is_account sid) s.db.accounts ≡ some a
      → find (is_account rid) s.db.accounts ≡ some b
      → (is_admin actor || owns actor (some a.customer_id)) ≡ true
      → amount ≤ℤ a.balance
      → pos_part amount < 10 ^ 15
      → pos_part (b.balance +ℤ amount) < 10 ^ 15
      → exists (λ (t : Transaction). same t.transaction_id id) s.db.transactions ≡ false
      → (transfer_body actor sid rid amount id now s).0 ≡ ok (transfer_row sid rid amount id now)
  unfolding transfer_body
  transfer_body_goes actor sid rid amount id now {a} {b} s sound positive distinct fa fb allowed
        enough small fits fresh =
      let t = (lock_both sid rid s).1 in
      let place : t ≡ record s {
        locks = (s.locks ++ (sorted_pair sid rid).0 ∷ []) ++ (sorted_pair sid rid).1 ∷ [];
      } =
        ap (λ x. x.1) (lock_both_lem sid rid s) in
      bind_goes (lock_both sid rid s).0 _ t (ap (λ x. x.0) (lock_both_lem sid rid s)) (
        bind_goes
          (value_or (find (is_account sid) s.db.accounts)
            (app not_found "Sender account not found"))
          _ t (λ i. value_or (fa i) (app not_found "Sender account not found"))
          (bind_goes
            (value_or (find (is_account rid) s.db.accounts)
              (app not_found "Receiver account not found"))
            _ t (λ i. value_or (fb i) (app not_found "Receiver account not found"))
            (bind_goes
              (if not (is_admin actor) && not (owns actor (some a.customer_id))
                then err (app forbidden "You may only transfer from your own account")
                else ok tt)
              _ t (rw (guard_open _ _ allowed))
              (subst
                (λ (u : Session).
                  (move_money (transfer_row sid rid amount id now) sid rid amount u).0
                  ≡ ok (transfer_row sid rid amount id now))
                (sym place)
                (move_money_goes sid rid amount id now {a = a} {b = b}
                  (record s {
                    locks =
                        (s.locks ++ (sorted_pair sid rid).0 ∷ []) ++ (sorted_pair sid rid).1 ∷ [];
                  })
                  sound positive distinct fa fb enough small fits fresh)))))

  bounded :
      (db : Db) (a : Account) → accounts_table.violation db a ≡ none → pos_part a.balance < 10 ^ 15
  unfolding accounts_table
  bounded db a h = ground arith

  pub small_of :
      (rows : List Account) (id : String) {a : Account} (db : Db) (amount : ℤ)
      → All (λ a. accounts_table.violation db a ≡ none) rows
      → find (is_account id) rows ≡ some a
      → pos 1 ≤ℤ amount
      → amount ≤ℤ a.balance
      → pos_part amount < 10 ^ 15
  small_of [] id db amount lawful found positive enough = cc
  small_of (x ∷ xs) id {a} db amount lawful found positive enough =
      elim (Bool-cases (is_account id x)) [
        | inl e ↦
            let same_row : x ≡ a = ground arith in
            let size = bounded db x lawful.0 in
            let size : pos_part a.balance < 10 ^ 15 =
              subst (λ (r : Account). pos_part r.balance < 10 ^ 15) same_row size in
            ground arith
        | inr e ↦ small_of xs id {a = a} db amount lawful.1 (ground arith) positive enough
      ]

  finish_goes :
      {A : Type 0} (w : World) (r : Result A × Session) {a : A} → r.0 ≡ ok a → (finish w r).0 ≡ ok a
  finish_goes w (ok b, s) h = h
  finish_goes w (err x, s) h = absurd (ground arith)

  -- From a database with unique account ids whose accounts pass their constraints, a transfer of an
  -- amount that rounds to a positive number of cents, between two existing accounts whose ids differ
  -- for the database, asked for by an administrator or the owner of the sender's account, which
  -- covers the amount, returns its row, provided that the receiver's new balance fits its column and
  -- the new transaction id is not in use.
  pub transfer_succeeds :
      (actor : Actor) (sid rid : String) (amount : Decimal) (cents : ℤ) (id : String) (now : ℕ)
      (w : World) {a b : Account}
      → IsSound w.committed
      → quantize amount ≡ ok cents
      → pos 1 ≤ℤ cents
      → same sid rid ≡ false
      → find (is_account sid) w.committed.accounts ≡ some a
      → find (is_account rid) w.committed.accounts ≡ some b
      → (is_admin actor || owns actor (some a.customer_id)) ≡ true
      → cents ≤ℤ a.balance
      → pos_part (b.balance +ℤ cents) < 10 ^ 15
      → exists (λ (t : Transaction). same t.transaction_id id) w.committed.transactions ≡ false
      → (transfer actor sid rid amount id now w).0 ≡ ok (ledger_row sid rid cents id now)
  unfolding transfer transfer_cents unit_of_work transfer_row
  transfer_succeeds actor sid rid amount cents id now w {a} {b} sound q positive distinct fa fb
        allowed enough fits fresh =
      rw (q, not_low cents positive, names_differ sid rid distinct)
        (finish_goes _ _ (
          transfer_body_goes actor sid rid cents id now {a = a} {b = b} (begin w) sound positive
            distinct fa fb allowed enough
            (small_of w.committed.accounts sid {a = a} w.committed cents sound.lawful fa positive
              enough)
            fits fresh))
