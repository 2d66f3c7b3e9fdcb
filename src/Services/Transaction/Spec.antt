-- ===== src/Services/Transaction/Spec.antt =====
-- What app/services/transaction_service.py promises of transfers, without tables, statements, locks
-- or connections: a bank in which an id has at most one holding, and a total function that decides
-- every request.
use mathlib.Core.Option
use corebank_api.Prelude.{
  ◌||◌, none, ◌&&◌, ◌+ℤ◌, pos_part, str_eq, not, ◌^◌, leb, some, [], pos, ◌-ℤ◌, false, ℕ, leb_ℤ,
  ◌∷◌, if◌then◌else◌, Bool, ℤ, List, Option, String,
}
use corebank_api.Database.Engine.{dup_entry, out_of_range, server_error, same, Engine}
use corebank_api.Services.Helpers.{owns, is_admin, Actor}
use corebank_api.Database.Schema.{TransactionType, Transaction, Account, Db}
use corebank_api.Errors.{forbidden, business_rule, not_found, app, ok, err, Result}
use corebank_api.Database.Uow.{World, Action}
use corebank_api.Database.Rows.{exists, find}
use corebank_api.Money.{quantize, Decimal}
use corebank_api.Services.Transaction.{insufficient_funds, transfer}
use corebank_api.Repositories.Accounts.Money.{is_account}

pub record TransferRequest : Type 0 where
  pub actor : Actor
  pub sender_id : String
  pub receiver_id : String
  pub amount : Decimal
  pub id : String
  pub now : ℕ

pub record Holding : Type 0 where
  pub owner : String
  pub balance : ℤ

-- The holding of each account id, and the transaction ids that are taken.
pub record Bank : Type 0 where
  pub holding : String → Option Holding
  pub is_taken : String → Bool

-- The row of a transfer of some cents in the ledger.
abbrev pub ledger_row : String → String → ℤ → String → ℕ → Transaction
ledger_row from to cents id now = record {
  transaction_id = id;
  from_account_id = from;
  to_account_id = some to;
  transaction_type = TransactionType.transfer;
  amount = cents;
  transaction_timestamp = now;
}

abbrev pub adjusted : (ℤ → ℤ) → Holding → Holding
adjusted f h = record h { balance = f h.balance }

module _ ⦃e : Engine⦄ where
  abbrev pub adjust : String → (ℤ → ℤ) → (String → Option Holding) → String → Option Holding
  adjust id f holding key =
      if same key id then Option.map (adjusted f) (holding key) else holding key

  -- The receiver's holding after the debit takes the amount, unless its column is too small.
  abbrev pub overflows : ℤ → Option Holding → Bool
  overflows cents none = false
  overflows cents (some h) = leb (10 ^ 15) (pos_part (h.balance +ℤ cents))

  -- A transfer that the parties may make.
  abbrev pub book : TransferRequest → ℤ → Bank → Result Transaction × Bank
  book q cents bank =
      let debited = adjust q.sender_id (λ x. x -ℤ cents) bank.holding in
      if overflows cents (debited q.receiver_id)
      then (err (server_error out_of_range), bank)
      else if bank.is_taken q.id
      then (err (server_error dup_entry), bank)
      else (
        ok (ledger_row q.sender_id q.receiver_id cents q.id q.now),
        record {
          holding = adjust q.receiver_id (λ x. x +ℤ cents) debited;
          is_taken = λ key. bank.is_taken key || same q.id key;
        },
      )

  abbrev pub settle :
      TransferRequest → ℤ → Option Holding → Option Holding → Bank → Result Transaction × Bank
  settle q cents none receiver bank = (err (app not_found "Sender account not found"), bank)
  settle q cents (some a) none bank = (err (app not_found "Receiver account not found"), bank)
  settle q cents (some a) (some b) bank =
      if not (is_admin q.actor) && not (owns q.actor (some a.owner))
      then (err (app forbidden "You may only transfer from your own account"), bank)
      else if leb_ℤ cents a.balance
      then book q cents bank
      else (err insufficient_funds, bank)

  abbrev pub decide_cents : TransferRequest → ℤ → Bank → Result Transaction × Bank
  decide_cents q cents bank =
      if leb_ℤ cents (pos 0)
      then (err (app business_rule "Transfer amount must be greater than zero"), bank)
      else if str_eq q.sender_id q.receiver_id
      then (err (app business_rule "Sender and receiver accounts must differ"), bank)
      else settle q cents (bank.holding q.sender_id) (bank.holding q.receiver_id) bank

  abbrev pub decide_rounded : TransferRequest → Result ℤ → Bank → Result Transaction × Bank
  decide_rounded q (ok cents) bank = decide_cents q cents bank
  decide_rounded q (err x) bank = (err x, bank)

  -- The whole specification of `transfer`.
  unfoldable pub decide : TransferRequest → Bank → Result Transaction × Bank
  decide q bank = decide_rounded q (quantize q.amount) bank

  -- A sequence of requests, each with its result.
  unfoldable pub decide_all : List TransferRequest → Bank → List (Result Transaction) × Bank
  decide_all [] bank = ([], bank)
  decide_all (q ∷ rest) bank =
      let (result, next) = decide q bank in
      let (results, last) = decide_all rest next in (result ∷ results, last)

  -- The bank that the tables stand for.
  abbrev pub holding_of : Account → Holding
  holding_of a = record { owner = a.customer_id; balance = a.balance }

  unfoldable pub bank_of : Db → Bank
  bank_of db = record {
    holding = λ key. Option.map holding_of (find (is_account key) db.accounts);
    is_taken = λ key. exists (λ (t : Transaction). same t.transaction_id key) db.transactions;
  }

  -- The calls of `transfer`, one after the other.
  unfoldable pub serve : TransferRequest → Action Transaction
  serve q = transfer q.actor q.sender_id q.receiver_id q.amount q.id q.now

  unfoldable pub serve_all : List TransferRequest → World → List (Result Transaction) × World
  serve_all [] w = ([], w)
  serve_all (q ∷ rest) w =
      let (result, next) = serve q w in
      let (results, last) = serve_all rest next in (result ∷ results, last)
