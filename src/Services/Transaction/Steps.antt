-- ===== src/Services/Transaction/Steps.antt =====
-- The steps of `transfer` in app/services/transaction_service.py: what the locks and the money
-- movement do when they end in a value.
use corebank_api.Prelude.{
  str_eq_iff, str_eq, str_lt, ◌||◌, subst, sym, ℕ, String, ◌≡◌, refl, ap, ◌∙◌, Bool, true, false,
  ◌&&◌, not, ◌==◌, ◌⊎◌, inl, inr, Option, some, [], ◌∷◌, ◌++◌, ℤ, pos, ◌≤ℤ◌, int_laws, arith,
  Bool-cases, if◌then◌else◌,
}
use corebank_api.Errors.{ok_eq, forbidden, not_found, app, ok, err}
use corebank_api.Database.Engine.{Engine}
use corebank_api.Database.Schema.{Account, Db, Transaction}
use corebank_api.Database.Rows.{find, count}
use corebank_api.Database.Statement.{value_or, Session}
use corebank_api.Repositories.Accounts
use corebank_api.Repositories.Accounts.Money.{
  IsSound-transactions, total-lowered, total-raised, one_account, IsSound-replace, raise_balance,
  total_balance, IsSound, lower, is_account, Accepted, is_funded, lowered, raised, debit_ok,
  credit_ok,
}
use corebank_api.Repositories.Transactions
use corebank_api.Repositories.Transactions.{insert_ok}
use corebank_api.Services.Transaction.{
  transfer_row, choose, sorted_pair, lock_both, transfer_body, move_money, insufficient_funds,
}
use corebank_api.Database.Statement.Effects.{value_or_ok, bind_ok, guard_ok}
use corebank_api.Database.Rows.Replace.{count-replace}
use corebank_api.Services.Helpers.{owns, is_admin, Actor}

is_one : (n : ℕ) → not (n == 1) ≡ false → n ≡ 1
is_one n h = ground arith

one_of : (a b : Bool) → (not a && not b) ≡ false → (a || b) ≡ true
one_of a b h = ground arith

choose_lem :
    {A : Type 0} (f : String → A) (key first second : String)
    → (key ≡ first) ⊎ (key ≡ second)
    → choose key second (f first) (f second) ≡ f key
choose_lem f key first second h = elim (Bool-cases (str_eq key second)) [
  | inl e ↦ rw e (ap f (sym ((str_eq_iff key second).0 e)))
  | inr e ↦ rw e (choose_first h e)
]
  where
    choose_first : (key ≡ first) ⊎ (key ≡ second) → str_eq key second ≡ false → f first ≡ f key
    choose_first (inl p) e = ap f (sym p)
    choose_first (inr p) e = cc (e, (str_eq_iff key second).1 p)

sorted_pair_has :
    (a b : String)
    → ((a ≡ (sorted_pair a b).0) ⊎ (a ≡ (sorted_pair a b).1))
      × ((b ≡ (sorted_pair a b).0) ⊎ (b ≡ (sorted_pair a b).1))
unfolding sorted_pair
sorted_pair_has a b = elim (Bool-cases (str_lt b a)) [
  | inl e ↦ rw e (inr refl, inl refl)
  | inr e ↦ rw e (inl refl, inr refl)
]

module _ ⦃e : Engine⦄ where
  abbrev pub moved : Transaction → String → String → ℤ → Db → Db
  moved row sid rid amount db = record db {
    accounts = raised rid amount (lowered sid amount db.accounts);
    transactions = db.transactions ++ row ∷ [];
  }

  pub move_money_ok :
      (row : Transaction) (sid rid : String) (amount : ℤ) {r : Transaction} (s : Session)
      {s' : Session}
      → pos 1 ≤ℤ amount
      → move_money row sid rid amount s ≡ (ok r, s')
      → (count (is_funded sid amount) s.db.accounts ≡ 1)
        × (r ≡ row)
        × (s' ≡ record s { db = moved row sid rid amount s.db })
        × Accepted (is_funded sid amount) (lower amount) s.db
        × Accepted
            (is_account rid)
            (raise_balance amount)
            (record s.db { accounts = lowered sid amount s.db.accounts })
  unfolding move_money
  move_money_ok row sid rid amount s positive h =
      let (n, eD, h1) = bind_ok (Accounts.debit sid amount s).0 _ h in
      let (_, eG, h2) = bind_ok (if not (n == 1) then err insufficient_funds else ok tt) _ h1 in
      let s1 = (Accounts.debit sid amount s).1 in
      let (m, eC, h3) = bind_ok (Accounts.credit rid amount s1).0 _ h2 in
      let s2 = (Accounts.credit rid amount s1).1 in
      let (u, eI, h4) = bind_ok (Transactions.insert row s2).0 _ h3 in
      let (size, lowering, accepted) = debit_ok sid amount s n positive eD in
      let (raising, accepted') = credit_ok rid amount s1 m eC in
      (
        sym size ∙ is_one n (guard_ok _ _ eG),
        ok_eq (sym (ap (λ x. x.0) h4)),
        sym (ap (λ x. x.1) h4)
            ∙ (insert_ok row s2 u eI).1
            ∙ ap
                (λ (t : Session). record t {
                  db = record t.db { transactions = t.db.transactions ++ row ∷ [] };
                })
                (raising
                  ∙ ap
                      (λ (t : Session). record t {
                        db = record t.db { accounts = raised rid amount t.db.accounts };
                      })
                      lowering),
        accepted,
        subst (λ (t : Session). Accepted (is_account rid) (raise_balance amount) t.db) lowering
            accepted',
      )

  -- The movement keeps the sum of the balances and the soundness of the accounts.
  pub move_money_conserves :
      (row : Transaction) (sid rid : String) (amount : ℤ) {r : Transaction} {b : Account}
      (s : Session) {s' : Session}
      → pos 1 ≤ℤ amount
      → find (is_account rid) s.db.accounts ≡ some b
      → IsSound s.db
      → move_money row sid rid amount s ≡ (ok r, s')
      → (total_balance s'.db ≡ total_balance s.db) × IsSound s'.db
  move_money_conserves row sid rid amount s positive found sound h =
      let (one, _, left, accepted, accepted') = move_money_ok row sid rid amount s positive h in
      let mid : Db = record s.db { accounts = lowered sid amount s.db.accounts } in
      let sound_mid : IsSound mid =
        IsSound-replace (is_funded sid amount) (lower amount) s.db (λ a. refl) accepted sound in
      let two : count (is_account rid) mid.accounts ≡ 1 =
        count-replace (is_funded sid amount) (lower amount) (is_account rid) (λ a. refl)
          s.db.accounts
        ∙ one_account rid s.db.accounts sound.keys found in
      subst (λ (t : Session). (total_balance t.db ≡ total_balance s.db) × IsSound t.db) (sym left)
        (
          rw (total-raised rid amount mid.accounts two, total-lowered sid amount s.db.accounts one)
              (omega int_laws),
          IsSound-transactions (record mid { accounts = raised rid amount mid.accounts })
              (s.db.transactions ++ row ∷ [])
              (IsSound-replace (is_account rid) (raise_balance amount) mid (λ a. refl) accepted'
                sound_mid),
        )

  -- The locked rows of the two parties, whichever is locked first, and the order of the locks.
  pub lock_both_lem :
      (sid rid : String) (s : Session)
      → lock_both sid rid s ≡ (
        ok (find (is_account sid) s.db.accounts, find (is_account rid) s.db.accounts),
        record s {
          locks = (s.locks ++ (sorted_pair sid rid).0 ∷ []) ++ (sorted_pair sid rid).1 ∷ [];
        },
      )
  unfolding lock_both Accounts.lock
  lock_both_lem sid rid s =
      let row : String → Option Account = λ id. find (is_account id) s.db.accounts in
      let (sender_in, receiver_in) = sorted_pair_has sid rid in
      let p = choose_lem row sid (sorted_pair sid rid).0 (sorted_pair sid rid).1 sender_in in
      let q = choose_lem row rid (sorted_pair sid rid).0 (sorted_pair sid rid).1 receiver_in in
      λ i. (
        ok (p i, q i),
        record s {
          locks = (s.locks ++ (sorted_pair sid rid).0 ∷ []) ++ (sorted_pair sid rid).1 ∷ [];
        },
      )

  pub transfer_body_ok :
      (actor : Actor) (sid rid : String) (amount : ℤ) (id : String) (now : ℕ) {r : Transaction}
      (s : Session) {s' : Session}
      → transfer_body actor sid rid amount id now s ≡ (ok r, s')
      → (a b : Account) × (find (is_account sid) s.db.accounts ≡ some a)
        × (find (is_account rid) s.db.accounts ≡ some b)
        × ((is_admin actor || owns actor (some a.customer_id)) ≡ true)
        × (move_money (transfer_row sid rid amount id now) sid rid amount (lock_both sid rid s).1
            ≡ (ok r, s'))
  unfolding transfer_body
  transfer_body_ok actor sid rid amount id now s h =
      let s1 = (lock_both sid rid s).1 in
      let (locked, eL, h1) = bind_ok (lock_both sid rid s).0 s1 h in
      let (a, eA, h2) =
        bind_ok (value_or locked.0 (app not_found "Sender account not found")) s1 h1 in
      let (b, eB, h3) =
        bind_ok (value_or locked.1 (app not_found "Receiver account not found")) s1 h2 in
      let (u, eU, h4) =
        bind_ok
          (if not (is_admin actor) && not (owns actor (some a.customer_id))
            then err (app forbidden "You may only transfer from your own account")
            else ok tt)
          s1 h3 in
      let rows : locked
          ≡ (find (is_account sid) s.db.accounts, find (is_account rid) s.db.accounts) =
        ok_eq (sym eL ∙ ap (λ x. x.0) (lock_both_lem sid rid s)) in
      (
        a,
        b,
        sym (ap (λ x. x.0) rows) ∙ value_or_ok locked.0 _ eA,
        sym (ap (λ x. x.1) rows) ∙ value_or_ok locked.1 _ eB,
        one_of _ _ (guard_ok _ _ eU),
        h4,
      )
