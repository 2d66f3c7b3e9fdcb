-- ===== src/Scripts/ConcurrencyDemo/Overdraft.antt =====
-- What scripts/concurrency_demo.py sets out to show: an overdraft in the naive transfer and in
-- `transfer` of app/services/transaction_service.py.
use mathlib.Core.Option
use corebank_api.Scripts.ConcurrencyDemo.{
  Call, naive_transfer, change_balance, reading, debiting, rejected, debit_failed,
}
use corebank_api.Services.Transaction.Spec.{
  TransferRequest, decide, bank_of, serve, Bank, Holding, holding_of,
}
use corebank_api.Repositories.Accounts.Money.{is_account, IsSound, lower}
use corebank_api.Database.Tables.{accounts_table}
use corebank_api.Database.Engine.{same, server_error, check_violated, Engine}
use corebank_api.Database.Schema.{Account, Db}
use corebank_api.Database.Statement.{counted, execute_update}
use corebank_api.Prelude.{
  All-zip, subst, All-map, All, ap, ◌∙◌, refl, sym, String, true, ◌||◌, -ℤ_parts, arith, ◌≤ℤ◌, none,
  some, pos, leb_ℤ, ◌^◌, false, ◌<◌, pos_part, ◌≡◌, str_eq, ℤ,
}
use corebank_api.Database.Uow.{World}
use corebank_api.Money.{quantize}
use corebank_api.Errors.{err, ok}
use corebank_api.Database.Rows.{find}
use corebank_api.Services.Helpers.{owns, is_admin}
use corebank_api.Services.Transaction.{insufficient_funds}
use corebank_api.Services.Transaction.Success.{guard_open, not_low}
use corebank_api.Services.Transaction.Refinement.{transfer_refines}
use corebank_api.Database.Rows.Replace.{update_rows_fails}
use corebank_api.Database.Rows.Keys.{only_match}

overdraft_unlawful :
    ⦃e : Engine⦄ (db : Db) (amount : ℤ) (x : Account)
    → pos_part amount < 10 ^ 15
    → leb_ℤ amount x.balance ≡ false
    → accounts_table.violation db x ≡ none
    → accounts_table.violation db (lower amount x) ≡ some check_violated
unfolding accounts_table
overdraft_unlawful db amount x small short h = ground (arith, -ℤ_parts x.balance amount)

module _ ⦃e : Engine⦄ where
  -- The one row that the debit matches would break the CHECK.
  overdrawn_rows :
      (id : String) (amount : ℤ) (a : Account) (db : Db)
      → IsSound db
      → pos_part amount < 10 ^ 15
      → find (is_account id) db.accounts ≡ some a
      → leb_ℤ amount a.balance ≡ false
      → All
          (λ x.
            is_account id x ≡ true
            → accounts_table.violation db (lower amount x) ≡ some check_violated)
          db.accounts
  overdrawn_rows id amount a db sound small found short =
      let lawful : Account → Type 0 = λ x. accounts_table.violation db x ≡ none in
      let matched : Account → Type 0 = λ x. same x.account_id id ≡ true → x ≡ a in
      let low : Account → Type 0 = λ x. leb_ℤ amount x.balance ≡ false in
      All-map (λ x. lawful x × matched x)
        (λ x.
          is_account id x ≡ true
          → accounts_table.violation db (lower amount x) ≡ some check_violated)
        db.accounts
        (λ x both f. overdraft_unlawful db amount x small (subst low (sym (both.1 f)) short) both.0)
        (All-zip lawful matched db.accounts sound.lawful
          (only_match (λ (r : Account). r.account_id) id {a = a} db.accounts sound.keys found))

  naive_overdraft :
      (call : Call) (a : Account) (db : Db)
      → IsSound db
      → pos_part call.amount < 10 ^ 15
      → find (is_account call.sender) db.accounts ≡ some a
      → leb_ℤ call.amount a.balance ≡ false
      → (naive_transfer call reading db ≡ (rejected, db))
        × (naive_transfer call debiting db ≡ (debit_failed (server_error check_violated), db))
  unfolding naive_transfer change_balance execute_update accounts_table server_error
  naive_overdraft call a db sound small found short = (
    rw found (ground arith),
    rw (
        update_rows_fails (is_account call.sender) (lower call.amount) (accounts_table.violation db)
          (counted accounts_table) check_violated {r = a} db.accounts found
          (overdrawn_rows call.sender call.amount a db sound small found short)),
  )

  decides_short :
      (q : TransferRequest) (cents : ℤ) (bank : Bank) (h k : Holding)
      → str_eq q.sender_id q.receiver_id ≡ false
      → quantize q.amount ≡ ok cents
      → pos 1 ≤ℤ cents
      → bank.holding q.sender_id ≡ some h
      → bank.holding q.receiver_id ≡ some k
      → (is_admin q.actor || owns q.actor (some h.owner)) ≡ true
      → leb_ℤ cents h.balance ≡ false
      → decide q bank ≡ (err insufficient_funds, bank)
  unfolding decide
  decides_short q cents bank h k differ amount positive sender receiver admitted short =
      rw (amount, not_low cents positive, differ, sender, receiver, guard_open _ _ admitted, short)
        refl

  -- From a sound database, for a principal who may transfer, two accounts that exist and whose ids
  -- differ as texts, and a positive amount that fits the column but that the sender does not cover:
  -- `transfer` ends in "Insufficient funds", and leaves every account id with its owner and balance.
  -- The naive transfer ends in a rejection as well if it has not read the balance yet; if it has
  -- read a balance that was high enough, before another call took from it, it sends the UPDATE and
  -- ends in the server's error for the violated CHECK, with nothing changed.
  pub overdraft_ends :
      (q : TransferRequest) (cents : ℤ) (a b : Account) (w : World)
      → IsSound w.committed
      → str_eq q.sender_id q.receiver_id ≡ false
      → quantize q.amount ≡ ok cents
      → pos 1 ≤ℤ cents
      → pos_part cents < 10 ^ 15
      → find (is_account q.sender_id) w.committed.accounts ≡ some a
      → find (is_account q.receiver_id) w.committed.accounts ≡ some b
      → (is_admin q.actor || owns q.actor (some a.customer_id)) ≡ true
      → leb_ℤ cents a.balance ≡ false
      → let call : Call = record {
        sender = q.sender_id;
        receiver = q.receiver_id;
        amount = cents;
      } in
        ((serve q w).0 ≡ err insufficient_funds)
        × ((key : String)
            → (bank_of (serve q w).1.committed).holding key ≡ (bank_of w.committed).holding key)
        × (naive_transfer call reading w.committed ≡ (rejected, w.committed))
        × (naive_transfer call debiting w.committed
            ≡ (debit_failed (server_error check_violated), w.committed))
  overdraft_ends q cents a b w sound differ amount positive small fa fb admitted short =
      let call : Call = record { sender = q.sender_id; receiver = q.receiver_id; amount = cents } in
      let (first, second) = naive_overdraft call a w.committed sound small fa short in
      let e =
        sym (transfer_refines q w sound)
        ∙ decides_short q cents (bank_of w.committed) (holding_of a) (holding_of b) differ amount
            positive (unfold bank_of in ap (Option.map holding_of) fa)
            (unfold bank_of in ap (Option.map holding_of) fb) admitted short in
      (ap (λ r. r.0) e, λ key. ap (λ r. r.1.holding key) e, first, second)
