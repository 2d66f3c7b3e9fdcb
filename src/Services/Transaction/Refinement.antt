-- ===== src/Services/Transaction/Refinement.antt =====
-- `transfer` of app/services/transaction_service.py implements its specification.
use corebank_api.Prelude.{
  refl, subst, sym, ◌+ℤ◌, ap, ◌∷◌, ◌++◌, List, str_eq, [], leb, arith, ◌^◌, ◌<◌, pos_part, ◌∙◌,
  leb_ℤ, ◌&&◌, if◌then◌else◌, Bool-cases, inr, not, inl, Option-cases, some, ◌≡◌, ◌≤ℤ◌, pos, Option,
  ℤ,
}
use corebank_api.Database.Engine.{same, Engine}
use corebank_api.Services.Transaction.Spec.{
  serve_all, decide_rounded, serve, decide_cents, Bank, decide, decide_all, book, settle,
  TransferRequest, bank_of,
}
use corebank_api.Database.Schema.{Transaction, Account}
use corebank_api.Database.Statement.{raise_if, ◌>>◌, or_raise, ◌>>=◌, Stmt, Session}
use corebank_api.Repositories.Accounts.Money.{lowered, is_account, IsSound}
use corebank_api.Database.Rows.{exists, find}
use corebank_api.Services.Transaction.Booking.Holdings.{Agrees}
use corebank_api.Services.Transaction.Booking.{
  booked_lem, taken_lem, large_lem, receiver_after, move_money_debited, agree_err, row_of,
}
use corebank_api.Errors.{Result, ok, err, forbidden, not_found, app}
use corebank_api.Services.Transaction.{
  lock_both, sorted_pair, transfer, transfer_body, transfer_cents, insufficient_funds, move_money,
}
use corebank_api.Services.Helpers.{owns, is_admin}
use corebank_api.Services.Transaction.Accepted.{none_funded, debit_lem}
use corebank_api.Database.Uow.{with_value, begin, World}
use corebank_api.Services.Transaction.Success.{small_of}
use corebank_api.Database.Uow.Atomicity.{unit_of_work_atomic, Ends}
use corebank_api.Money.{quantize}
use corebank_api.Services.Transaction.Conservation.{positive_of, transfer_conserves}
use corebank_api.Database.Statement.Effects.{after_ok}
use corebank_api.Services.Transaction.Steps.{lock_both_lem}

module _ ⦃e : Engine⦄ where
  -- the movement, whether or not the sender covers the amount
  moved_lem :
      (q : TransferRequest) (cents : ℤ) {a b : Account} (s : Session)
      → IsSound s.db
      → pos 1 ≤ℤ cents
      → find (is_account q.sender_id) s.db.accounts ≡ some a
      → find (is_account q.receiver_id) s.db.accounts ≡ some b
      → Agrees s.db (move_money (row_of q cents) q.sender_id q.receiver_id cents s) (
          if leb_ℤ cents a.balance
          then book q cents (bank_of s.db)
          else (err insufficient_funds, bank_of s.db))
  moved_lem q cents {a} {b} s sound positive fa fb = elim (Bool-cases (leb_ℤ cents a.balance)) [
    | inr short ↦
        agree_err s.db
          {d = if leb_ℤ cents a.balance
            then book q cents (bank_of s.db)
            else (err insufficient_funds, bank_of s.db)}
          (move_money_debited (row_of q cents) q.sender_id q.receiver_id cents s _ 0 (
            debit_lem q.sender_id cents s sound positive ∙ (λ i. (
              ok (none_funded q.sender_id cents {a = a} s.db.accounts sound.keys fa short i),
              record s { db = record s.db { accounts = lowered q.sender_id cents s.db.accounts } },
            ))))
          (rw short)
    | inl enough ↦
        let small : pos_part cents < 10 ^ 15 =
          small_of s.db.accounts q.sender_id {a = a} s.db cents sound.lawful fa positive
            (ground arith) in
        elim (Bool-cases (leb (10 ^ 15) (pos_part ((receiver_after q cents b).balance +ℤ cents)))) [
          | inl large ↦
              rw enough (large_lem q cents {a = a} {b = b} s sound positive fa fb enough large)
          | inr fits ↦
              elim (Bool-cases
                (exists (λ (t : Transaction). same t.transaction_id q.id) s.db.transactions)) [
                  | inl taken ↦ rw enough (
                      taken_lem q cents {a = a} {b = b} s sound positive fa fb enough small fits
                        taken)
                  | inr fresh ↦ rw enough (
                      booked_lem q cents {a = a} {b = b} s sound positive fa fb enough small fits
                        fresh)
                ]
        ]
  ]

  -- `transfer_body` after the locks
  abbrev checked : TransferRequest → ℤ → Option Account × Option Account → Stmt Transaction
  checked q cents locked = do
    sender ← or_raise locked.0 (app not_found "Sender account not found")
    or_raise locked.1 (app not_found "Receiver account not found")
    raise_if (not (is_admin q.actor) && not (owns q.actor (some sender.customer_id)))
        (app forbidden "You may only transfer from your own account")
    move_money (row_of q cents) q.sender_id q.receiver_id cents

  checked_lem :
      (q : TransferRequest) (cents : ℤ) (s : Session)
      → IsSound s.db
      → pos 1 ≤ℤ cents
      → Agrees s.db
          (checked q cents
            (
              find (is_account q.sender_id) s.db.accounts,
              find (is_account q.receiver_id) s.db.accounts,
            )
            s)
          (settle q cents
            ((bank_of s.db).holding q.sender_id)
            ((bank_of s.db).holding q.receiver_id)
            (bank_of s.db))
  unfolding bank_of
  checked_lem q cents s sound positive =
      elim (Option-cases (find (is_account q.sender_id) s.db.accounts)) [
        | inl nobody ↦ rw nobody refl
        | inr (a, fa) ↦ elim (Option-cases (find (is_account q.receiver_id) s.db.accounts)) [
          | inl nobody ↦ rw (fa, nobody) refl
          | inr (b, fb) ↦
              elim (Bool-cases
                (not (is_admin q.actor) && not (owns q.actor (some a.customer_id)))) [
                  | inl foreign ↦ rw (fa, fb, foreign) refl
                  | inr allowed ↦
                      rw (fa, fb, allowed)
                        (moved_lem q cents {a = a} {b = b} s sound positive fa fb)
                ]
        ]
      ]

  ended :
      {A : Type 0} (w : World) (r : Result A × Session) (out : Result A × World)
      {d : Result A × Bank}
      → Ends w r out
      → Agrees w.committed r d
      → d ≡ (out.0, bank_of out.1.committed)
  ended w (ok a, s) out h k =
      k ∙ ap (λ (o : Result _ × World). (o.0, bank_of o.1.committed)) (sym h)
  ended w (err x, s) out h k =
      k ∙ ap (λ (o : Result _ × World). (o.0, bank_of o.1.committed)) (sym h)

  body_lem :
      (q : TransferRequest) (cents : ℤ) (w : World)
      → IsSound w.committed
      → pos 1 ≤ℤ cents
      → Agrees w.committed
          (transfer_body q.actor q.sender_id q.receiver_id cents q.id q.now (begin w))
          (settle q cents
            ((bank_of w.committed).holding q.sender_id)
            ((bank_of w.committed).holding q.receiver_id)
            (bank_of w.committed))
  unfolding transfer_body
  body_lem q cents w sound positive =
      let locked : Session = record (begin w) {
        locks =
            ([] ++ (sorted_pair q.sender_id q.receiver_id).0 ∷ [])
            ++ (sorted_pair q.sender_id q.receiver_id).1 ∷ [];
      } in
      let first =
        after_ok (lock_both q.sender_id q.receiver_id) (checked q cents) (begin w)
          (lock_both_lem q.sender_id q.receiver_id (begin w)) in
      subst
        (λ (r : Result Transaction × Session). Agrees w.committed r (
          settle q cents ((bank_of w.committed).holding q.sender_id)
            ((bank_of w.committed).holding q.receiver_id) (bank_of w.committed)))
        (sym first) (checked_lem q cents locked sound positive)

  cents_lem :
      (q : TransferRequest) (cents : ℤ) (w : World)
      → IsSound w.committed
      → decide_cents q cents (bank_of w.committed) ≡ (
        (transfer_cents q.actor q.sender_id q.receiver_id cents q.id q.now w).0,
        bank_of (transfer_cents q.actor q.sender_id q.receiver_id cents q.id q.now w).1.committed,
      )
  unfolding transfer_cents
  cents_lem q cents w sound = elim (Bool-cases (leb_ℤ cents (pos 0))) [
    | inl low ↦ rw low refl
    | inr high ↦ elim (Bool-cases (str_eq q.sender_id q.receiver_id)) [
      | inl self ↦ rw (high, self) refl
      | inr other ↦
          rw (high, other)
            (ended w (transfer_body q.actor q.sender_id q.receiver_id cents q.id q.now (begin w)) _
              (unit_of_work_atomic
                (transfer_body q.actor q.sender_id q.receiver_id cents q.id q.now) w)
              (body_lem q cents w sound (positive_of cents high)))
    ]
  ]

  rounded_lem :
      (q : TransferRequest) (rounded : Result ℤ) (w : World)
      → IsSound w.committed
      → decide_rounded q rounded (bank_of w.committed) ≡ (
        (with_value rounded
            (λ cents. transfer_cents q.actor q.sender_id q.receiver_id cents q.id q.now)
            w).0,
        bank_of
            (with_value rounded
              (λ cents. transfer_cents q.actor q.sender_id q.receiver_id cents q.id q.now)
              w).1.committed,
      )
  rounded_lem q (ok cents) w sound = cents_lem q cents w sound
  rounded_lem q (err x) w sound = refl

  -- From a database with unique account ids whose accounts pass their constraints, a transfer has
  -- the result that the specification decides, an exception included, and leaves the tables to stand
  -- for the bank that the specification leaves: for any principal, ids, amount and transaction id,
  -- also where the two ids are spellings of one account.
  pub transfer_refines :
      (q : TransferRequest) (w : World)
      → IsSound w.committed
      → decide q (bank_of w.committed) ≡ ((serve q w).0, bank_of (serve q w).1.committed)
  unfolding decide serve transfer
  transfer_refines q w sound = rounded_lem q (quantize q.amount) w sound

  -- From a database with unique account ids whose accounts pass their constraints, any sequence of
  -- transfers, one after the other, has the list of results that the specification decides, and leaves
  -- the tables to stand for the bank that the specification leaves.
  pub transfers_refine :
      (qs : List TransferRequest) (w : World)
      → IsSound w.committed
      → decide_all qs (bank_of w.committed)
        ≡ ((serve_all qs w).0, bank_of (serve_all qs w).1.committed)
  unfolding decide_all serve_all
  transfers_refine [] w sound = refl
  transfers_refine (q ∷ qs) w sound =
      let one = transfer_refines q w sound in
      let kept =
        (transfer_conserves q.actor q.sender_id q.receiver_id q.amount q.id q.now w sound).1 in
      let rest = transfers_refine qs (serve q w).1 (unfold serve in kept) in rw (one, rest)
