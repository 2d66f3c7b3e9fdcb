-- ===== src/Services/Transaction/Effect.antt =====
-- What a transfer of app/services/transaction_service.py that returns has done.
use corebank_api.Services.Transaction.Movement.{covered, moved_row, balances_after}
use corebank_api.Prelude.{
  sym, ap, subst, ◌∙◌, str_eq, ◌++◌, ◌||◌, pos, refl, [], leb_ℤ, arith, inr, ◌∷◌, inl, ◌≤ℤ◌,
  Bool-cases, true, some, false, ◌≡◌, List, ℤ, String, ℕ,
}
use corebank_api.Database.Engine.{same, Engine}
use corebank_api.Database.Schema.{Transaction, Account}
use corebank_api.Database.Rows.{find}
use corebank_api.Repositories.Accounts.Money.{IsSound, raised, lowered, is_account}
use corebank_api.Services.Transaction.Spec.{ledger_row}
use corebank_api.Services.Transaction.{
  move_money, sorted_pair, transfer_body, transfer_cents, transfer_row, transfer,
}
use corebank_api.Services.Helpers.{owns, is_admin, Actor}
use corebank_api.Money.{quantize, Decimal}
use corebank_api.Database.Uow.{begin, with_value, World}
use corebank_api.Errors.{err, Result, ok}
use corebank_api.Services.Transaction.Steps.{lock_both_lem, move_money_ok, transfer_body_ok}
use corebank_api.Database.Statement.{Session}
use corebank_api.Database.Uow.Atomicity.{unit_of_work_ok}
use corebank_api.Services.Transaction.Conservation.{positive_of}

module _ ⦃e : Engine⦄ where
  -- What a transfer that returned `row` has found and done.
  pub record Transferred (actor : Actor) (sid rid : String) (amount : Decimal) (id : String)
      (now : ℕ) (w : World) (row : Transaction) (after : World) : Type 0 where
    pub cents : ℤ
    pub sender : Account
    pub receiver : Account
    pub rows : List Account
    pub rounded : quantize amount ≡ ok cents
    pub positive : pos 1 ≤ℤ cents
    pub ids_differ : str_eq sid rid ≡ false
    pub sender_found : find (is_account sid) w.committed.accounts ≡ some sender
    pub receiver_found : find (is_account rid) w.committed.accounts ≡ some receiver
    pub allowed : (is_admin actor || owns actor (some sender.customer_id)) ≡ true
    pub covered_by : cents ≤ℤ sender.balance
    pub row_is : row ≡ ledger_row sid rid cents id now
    pub world_is : after ≡ record w {
      committed = record w.committed {
        accounts = rows;
        transactions = w.committed.transactions ++ row ∷ [];
      };
    }
    pub accounts_are :
        (key : String)
        → find (is_account key) rows
          ≡ balances_after sid rid cents sender receiver w.committed.accounts key

  transfer_cents_ok :
      (actor : Actor) (sid rid : String) (cents : ℤ) (id : String) (now : ℕ) (w : World)
      {row : Transaction}
      → (transfer_cents actor sid rid cents id now w).0 ≡ ok row
      → (pos 1 ≤ℤ cents)
        × (str_eq sid rid ≡ false)
        × (s : Session) × (transfer_body actor sid rid cents id now (begin w) ≡ (ok row, s))
        × ((transfer_cents actor sid rid cents id now w).1 ≡ record w { committed = s.db })
  unfolding transfer_cents
  transfer_cents_ok actor sid rid cents id now w h = elim (Bool-cases (leb_ℤ cents (pos 0))) [
    | inl low ↦ absurd (let k = rw low at h in cc k)
    | inr high ↦ elim (Bool-cases (str_eq sid rid)) [
      | inl self ↦ absurd (let k = rw (high, self) at h in cc k)
      | inr other ↦
          let k = rw (high, other) at h in
          let (s, e, left) = unit_of_work_ok (transfer_body actor sid rid cents id now) w k in
          (positive_of cents high, other, s, e, rw (high, other) left)
    ]
  ]

  transferred :
      (actor : Actor) (sid rid : String) (amount : Decimal) (cents : ℤ) (id : String) (now : ℕ)
      (w : World) (row : Transaction)
      → IsSound w.committed
      → quantize amount ≡ ok cents
      → (transfer_cents actor sid rid cents id now w).0 ≡ ok row
      → same sid rid ≡ false
      → Transferred actor sid rid amount id now w row
          (transfer_cents actor sid rid cents id now w).1
  unfolding transfer_row
  transferred actor sid rid amount cents id now w row sound q h distinct =
      let (positive, other, s, body, left) = transfer_cents_ok actor sid rid cents id now w h in
      let (a, b, fa, fb, allowed, moving) =
        transfer_body_ok actor sid rid cents id now (begin w) body in
      let locked : Session = record (begin w) {
        locks = ([] ++ (sorted_pair sid rid).0 ∷ []) ++ (sorted_pair sid rid).1 ∷ [];
      } in
      let (one, same_row, written, _, _) =
        move_money_ok (transfer_row sid rid cents id now) sid rid cents locked positive (
          subst
            (λ (t : Session).
              move_money (transfer_row sid rid cents id now) sid rid cents t ≡ (ok row, s))
            (ap (λ x. x.1) (lock_both_lem sid rid (begin w))) moving) in
      let enough : cents ≤ℤ a.balance = covered sid cents w.committed.accounts sound.keys fa one in
      record {
        cents = cents;
        sender = a;
        receiver = b;
        rows = raised rid cents (lowered sid cents w.committed.accounts);
        rounded = q;
        positive = positive;
        ids_differ = other;
        sender_found = fa;
        receiver_found = fb;
        allowed = allowed;
        covered_by = enough;
        row_is = same_row;
        world_is =
            left
            ∙ ap (λ (t : Session). record w { committed = t.db }) written
            ∙ ap
                (λ (r : Transaction). record w {
                  committed = record w.committed {
                    accounts = raised rid cents (lowered sid cents w.committed.accounts);
                    transactions = w.committed.transactions ++ r ∷ [];
                  };
                })
                (sym same_row);
        accounts_are = λ key.
            moved_row sid rid cents {a = a} {b = b} w.committed.accounts key distinct fa fb enough;
      }

  -- A transfer that returns a row between ids that differ for the database: the amount rounds to a
  -- positive number of cents; both accounts exist; the principal is an administrator or owns the
  -- sender's account, which covers the amount. The returned row is appended to the ledger, the
  -- sender's balance is lowered and the receiver's raised by the amount, and any other account is
  -- found as before. Nothing else in the database changes, and no connection stays lent out.
  pub transfer_effect :
      (actor : Actor) (sid rid : String) (amount : Decimal) (id : String) (now : ℕ) (w : World)
      (row : Transaction)
      → IsSound w.committed
      → (transfer actor sid rid amount id now w).0 ≡ ok row
      → same sid rid ≡ false
      → Transferred actor sid rid amount id now w row (transfer actor sid rid amount id now w).1
  unfolding transfer
  transfer_effect actor sid rid amount id now w row sound h distinct = go (quantize amount) refl h
    where
      go :
          (q : Result ℤ)
          → quantize amount ≡ q
          → (with_value q (λ cents. transfer_cents actor sid rid cents id now) w).0 ≡ ok row
          → Transferred actor sid rid amount id now w row
              (with_value q (λ cents. transfer_cents actor sid rid cents id now) w).1
      go (ok cents) e h = transferred actor sid rid amount cents id now w row sound e h distinct
      go (err x) e h = absurd (ground arith)
