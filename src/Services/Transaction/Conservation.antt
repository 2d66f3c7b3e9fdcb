-- ===== src/Services/Transaction/Conservation.antt =====
-- Money is conserved by app/services/transaction_service.py, one call or many.
use corebank_api.Prelude.{
  refl, str_eq, inr, inl, ap, subst, ◌∷◌, ◌++◌, [], arith, Bool-cases, ◌≤ℤ◌, false, ◌≡◌, pos,
  String, leb_ℤ, ℤ, ℕ,
}
use corebank_api.Database.Engine.{Engine}
use corebank_api.Database.Schema.{Transaction, Db}
use corebank_api.Services.Helpers.{Actor}
use corebank_api.Services.Transaction.{
  transfer, move_money, sorted_pair, transfer_row, transfer_body, transfer_cents,
}
use corebank_api.Repositories.Accounts.Money.{IsSound, total_balance}
use corebank_api.Database.Uow.{with_value, begin, World}
use corebank_api.Database.Statement.{Session}
use corebank_api.Errors.{err, Result, ok}
use corebank_api.Services.Transaction.Steps.{lock_both_lem, move_money_conserves, transfer_body_ok}
use corebank_api.Money.{quantize, Decimal}
use corebank_api.Database.Uow.Atomicity.{unit_of_work_keeps}

pub positive_of : (x : ℤ) → leb_ℤ x (pos 0) ≡ false → pos 1 ≤ℤ x
positive_of x h = ground arith

module _ ⦃e : Engine⦄ where
  -- What a transfer must keep of the database that it began on.
  abbrev pub Conserves : Db → Db → Type 0
  Conserves before after = (total_balance after ≡ total_balance before) × IsSound after

  transfer_body-Conserves :
      (actor : Actor) (sid rid : String) (amount : ℤ) (id : String) (now : ℕ) (w : World)
      (r : Transaction) (s : Session)
      → pos 1 ≤ℤ amount
      → IsSound w.committed
      → transfer_body actor sid rid amount id now (begin w) ≡ (ok r, s)
      → Conserves w.committed s.db
  transfer_body-Conserves actor sid rid amount id now w r s positive sound h =
      let (a, b, _, found, _, moving) = transfer_body_ok actor sid rid amount id now (begin w) h in
      move_money_conserves (transfer_row sid rid amount id now) sid rid amount
        (record (begin w) {
          locks = ([] ++ (sorted_pair sid rid).0 ∷ []) ++ (sorted_pair sid rid).1 ∷ [];
        })
        positive found sound
        (subst
          (λ (t : Session).
            move_money (transfer_row sid rid amount id now) sid rid amount t ≡ (ok r, s))
          (ap (λ x. x.1) (lock_both_lem sid rid (begin w))) moving)

  transfer_cents-Conserves :
      (actor : Actor) (sid rid : String) (amount : ℤ) (id : String) (now : ℕ) (w : World)
      → IsSound w.committed
      → Conserves w.committed (transfer_cents actor sid rid amount id now w).1.committed
  unfolding transfer_cents
  transfer_cents-Conserves actor sid rid amount id now w sound =
      elim (Bool-cases (leb_ℤ amount (pos 0))) [
        | inl low ↦ rw low (refl, sound)
        | inr high ↦ elim (Bool-cases (str_eq sid rid)) [
          | inl self ↦ rw (high, self) (refl, sound)
          | inr other ↦
              rw (high, other)
                (unit_of_work_keeps (Conserves w.committed)
                  (transfer_body actor sid rid amount id now) w (refl, sound)
                  λ r s.
                    transfer_body-Conserves actor sid rid amount id now w r s
                      (positive_of amount high) sound)
        ]
      ]

  -- From a database whose account ids are unique and whose accounts pass their constraints, a
  -- transfer leaves such a database with the same sum of all balances, whoever asks for it, for
  -- whatever accounts and amount, and whether it returns or raises.
  pub transfer_conserves :
      (actor : Actor) (sid rid : String) (amount : Decimal) (id : String) (now : ℕ) (w : World)
      → IsSound w.committed
      → (total_balance (transfer actor sid rid amount id now w).1.committed
          ≡ total_balance w.committed)
        × IsSound (transfer actor sid rid amount id now w).1.committed
  unfolding transfer
  transfer_conserves actor sid rid amount id now w sound = go (quantize amount)
    where
      go :
          (q : Result ℤ)
          → Conserves w.committed
              (with_value q (λ cents. transfer_cents actor sid rid cents id now) w).1.committed
      go (ok cents) = transfer_cents-Conserves actor sid rid cents id now w sound
      go (err x) = (refl, sound)
