-- ===== src/Services/Transaction/Alias.antt =====
-- Transfers of app/services/transaction_service.py between two spellings of one account's id.
use mathlib.Core.Option
use corebank_api.Services.Transaction.Spec.{
  overflows, TransferRequest, decide, bank_of, serve, Bank, Holding, holding_of, adjust,
}
use corebank_api.Prelude.{
  sym, ap, ◌∙◌, leb_ℤ, ◌||◌, ◌≤ℤ◌, arith, pos, ◌^◌, inr, ◌<◌, Option-cases, pos_part, false, inl,
  some, Bool-cases, str_eq, true, int_laws, ◌+ℤ◌, Option, ◌≡◌, String, ◌-ℤ◌, ℤ,
}
use corebank_api.Database.Engine.{same_sym, same_trans, same, Engine}
use corebank_api.Database.Schema.{Account}
use corebank_api.Database.Uow.{World}
use corebank_api.Repositories.Accounts.Money.{is_account, IsSound}
use corebank_api.Money.{quantize}
use corebank_api.Errors.{ok}
use corebank_api.Services.Helpers.{owns, is_admin}
use corebank_api.Database.Rows.{find}
use corebank_api.Services.Transaction.Spec.{ledger_row}
use corebank_api.Services.Transaction.Movement.{find-same}
use corebank_api.Services.Transaction.Success.{small_of, guard_open, not_low}
use corebank_api.Services.Transaction.Refinement.{transfer_refines}

take_give : (x c : ℤ) → (x -ℤ c) +ℤ c ≡ x
take_give x c = omega int_laws

module _ ⦃e : Engine⦄ where
  same_group : (a b key : String) → same b a ≡ true → same key b ≡ same key a
  same_group a b key h = elim (Bool-cases (same key b)) [
    | inl p ↦ rw (p, same_trans key b a p h)
    | inr p ↦ elim (Bool-cases (same key a)) [
      | inl q ↦ absurd (cc (p, same_trans key a b q (same_sym b a h)))
      | inr q ↦ rw (p, q)
    ]
  ]

  -- The two adjustments of one holding undo each other.
  adjust_back :
      (sid rid : String) (cents : ℤ) (holding : String → Option Holding) (key : String)
      → same rid sid ≡ true
      → adjust rid (λ x. x +ℤ cents) (adjust sid (λ x. x -ℤ cents) holding) key ≡ holding key
  adjust_back sid rid cents holding key alias = elim (Bool-cases (same key sid)) [
    | inl p ↦ elim (Option-cases (holding key)) [
      | inl gone ↦ rw (same_group sid rid key alias, p, gone)
      | inr (h, found) ↦
          rw (same_group sid rid key alias, p, found) (rw (take_give h.balance cents))
    ]
    | inr p ↦ rw (same_group sid rid key alias, p)
  ]

  no_overflow :
      (sid rid : String) (cents : ℤ) (holding : String → Option Holding) {h : Holding}
      → same rid sid ≡ true
      → holding rid ≡ some h
      → pos_part h.balance < 10 ^ 15
      → overflows cents (adjust sid (λ x. x -ℤ cents) holding rid) ≡ false
  no_overflow sid rid cents holding {h} alias found small =
      rw (alias, found) (rw (take_give h.balance cents) (ground arith))

  decides :
      (q : TransferRequest) (cents : ℤ) (bank : Bank) (h : Holding)
      → same q.receiver_id q.sender_id ≡ true
      → str_eq q.sender_id q.receiver_id ≡ false
      → quantize q.amount ≡ ok cents
      → pos 1 ≤ℤ cents
      → bank.holding q.sender_id ≡ some h
      → bank.holding q.receiver_id ≡ some h
      → (is_admin q.actor || owns q.actor (some h.owner)) ≡ true
      → leb_ℤ cents h.balance ≡ true
      → pos_part h.balance < 10 ^ 15
      → bank.is_taken q.id ≡ false
      → ((decide q bank).0 ≡ ok (ledger_row q.sender_id q.receiver_id cents q.id q.now))
        × ((key : String) → (decide q bank).1.holding key ≡ bank.holding key)
  unfolding decide
  decides q cents bank h alias differ amount positive sender receiver admitted covered small fresh =
      let over =
        no_overflow q.sender_id q.receiver_id cents bank.holding {h = h} alias receiver small in
      let e : decide q bank ≡ (
        ok (ledger_row q.sender_id q.receiver_id cents q.id q.now),
        record {
          holding =
              adjust q.receiver_id (λ x. x +ℤ cents)
                (adjust q.sender_id (λ x. x -ℤ cents) bank.holding);
          is_taken = λ key. bank.is_taken key || same q.id key;
        },
      ) =
        rw (
          amount,
          not_low cents positive,
          differ,
          sender,
          receiver,
          guard_open _ _ admitted,
          covered,
          over,
          fresh,
        ) in
      (
        ap (λ r. r.0) e,
        λ key.
            ap (λ r. r.1.holding key) e
            ∙ adjust_back q.sender_id q.receiver_id cents bank.holding key alias,
      )

  -- Two ids that differ as Python texts and name one account for the database pass the test that the
  -- accounts differ. From a database with unique account ids whose accounts pass their constraints,
  -- a transfer between them by an administrator or the owner, of a positive amount that the account
  -- covers and with a transaction id that is not in use, returns its row and leaves every account id
  -- with the owner and the balance that it had.
  pub transfer_to_itself :
      (q : TransferRequest) (cents : ℤ) (a : Account) (w : World)
      → IsSound w.committed
      → same q.receiver_id q.sender_id ≡ true
      → str_eq q.sender_id q.receiver_id ≡ false
      → quantize q.amount ≡ ok cents
      → pos 1 ≤ℤ cents
      → find (is_account q.sender_id) w.committed.accounts ≡ some a
      → (is_admin q.actor || owns q.actor (some a.customer_id)) ≡ true
      → cents ≤ℤ a.balance
      → (bank_of w.committed).is_taken q.id ≡ false
      → ((serve q w).0 ≡ ok (ledger_row q.sender_id q.receiver_id cents q.id q.now))
        × ((key : String)
            → (bank_of (serve q w).1.committed).holding key ≡ (bank_of w.committed).holding key)
  transfer_to_itself q cents a w sound alias differ amount positive fa admitted covered fresh =
      let fb = find-same q.receiver_id q.sender_id w.committed.accounts alias ∙ fa in
      let small =
        small_of w.committed.accounts q.sender_id {a = a} w.committed a.balance sound.lawful fa
          (ground arith) (ground arith) in
      let (result, kept) =
        decides q cents (bank_of w.committed) (holding_of a) alias differ amount positive
          (unfold bank_of in ap (Option.map holding_of) fa)
          (unfold bank_of in ap (Option.map holding_of) fb) admitted (ground arith) small fresh in
      let e = transfer_refines q w sound in
      (ap (λ r. r.0) (sym e) ∙ result, λ key. ap (λ r. r.1.holding key) (sym e) ∙ kept key)
