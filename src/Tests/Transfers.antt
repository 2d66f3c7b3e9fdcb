-- ===== src/Tests/Transfers.antt =====
-- Sequences and interleavings of transfers, at inputs that meet the hypotheses of their theorems.
use corebank_api.Services.Transaction.Spec.{
  TransferRequest, decide, decide_all, bank_of, serve, serve_all,
}
use corebank_api.Services.Transaction.Locking.{
  finished, lock_first, update, Calls, Pc, Step, Reach, wants_first, wants_second,
}
use corebank_api.Services.Transaction.Refinement.{transfer_refines, transfers_refine}
use corebank_api.Services.Transaction.Alias.{transfer_to_itself}
use corebank_api.Services.Transaction.Visibility.{get_visible, MaySee}
use corebank_api.Services.Transaction.{get}
use corebank_api.Services.Transaction.Locking.Progress.{OneSpelling}
use corebank_api.Services.Transaction.Locking.Ends.{transfers_end, later, start}
use corebank_api.Services.Transaction.Locking.Aliased.{AreAliased, aliased_deadlock, crossed, stuck}
use corebank_api.Tests.Bank.{account, mysql, mysql_class, bank, world, owner, twenty, bank-IsSound}
use corebank_api.Prelude.{
  ◌≤◌, ◌*◌, lex_lt, str_lt, some, ◌↔◌, pos, refl, inr, inl, Bool-cases, str_eq_iff, [], arith,
  false, ◌<◌, ◌==◌, if◌then◌else◌, str_eq, ◌∷◌, ℕ, ◌≡◌, String,
}
use corebank_api.Database.Engine.{Engine, same}
use corebank_api.Database.Tables.{accounts_table}
use corebank_api.Money.{quantize}
use corebank_api.Services.Helpers.{owns, is_admin}
use corebank_api.Repositories.Accounts.Money.{IsSound}
use corebank_api.Errors.{ok}
use corebank_api.Services.Transaction.Spec.{ledger_row}
use corebank_api.Database.Uow.{World}
use corebank_api.Database.Rows.{find}
use corebank_api.Database.Schema.{Transaction}

abbrev request : String → String → String → TransferRequest
request from to id = record {
  actor = owner;
  sender_id = from;
  receiver_id = to;
  amount = twenty;
  id = id;
  now = 7;
}

transfer_refines_example : decide (request "a1" "a2" "x1") (bank_of bank) ≡ (
  (serve (request "a1" "a2" "x1") world).0,
  bank_of (serve (request "a1" "a2" "x1") world).1.committed,
)
transfer_refines_example = transfer_refines (request "a1" "a2" "x1") world bank-IsSound

transfers_refine_example :
    decide_all (request "a1" "a2" "x1" ∷ request "a2" "a1" "x2" ∷ []) (bank_of bank) ≡ (
      (serve_all (request "a1" "a2" "x1" ∷ request "a2" "a1" "x2" ∷ []) world).0,
      bank_of (serve_all (request "a1" "a2" "x1" ∷ request "a2" "a1" "x2" ∷ []) world).1.committed,
    )
transfers_refine_example =
    transfers_refine (request "a1" "a2" "x1" ∷ request "a2" "a1" "x2" ∷ []) world bank-IsSound

-- One transfer in each direction, the first of which has its first lock.
abbrev both_ways : Calls
both_ways i = if i == 0 then ("a1", "a2") else ("a2", "a1")

abbrev one_waits : ℕ → Pc
one_waits = update (λ _. wants_first) 0 wants_second

ways_differ : (i : ℕ) → i < 2 → str_eq (both_ways i).0 (both_ways i).1 ≡ false
unfolding str_eq
ways_differ i lt = elim (Bool-cases (i == 0)) [ inl z ↦ rw z refl | inr z ↦ rw z refl ]

one_spelling : OneSpelling 2 both_ways
unfolding same
one_spelling a b left right h = (str_eq_iff a b).0 h

transfers_end_example :
    (1 ≤ 3 * 2)
    × (1 < 3 * 2 → (pc' : ℕ → Pc) × Step 2 both_ways one_waits pc')
    × (1 ≡ 3 * 2 → (i : ℕ) → i < 2 → one_waits i ≡ finished)
transfers_end_example =
    transfers_end 2 both_ways 1 one_waits ways_differ one_spelling
      (later start (lock_first 0 (omega arith) refl (λ j lt ne. refl)))

-- A server that does not tell the cases of the letters of three ids apart.
abbrev fold_case : String → String
fold_case s =
    if str_eq s "a" then "A" else if str_eq s "b" then "B" else if str_eq s "A1" then "a1" else s

abbrev folding : Engine
folding = record { found_rows = false; collation_key = fold_case; error_class = mysql_class }

folds : AreAliased ⦃e = folding⦄ "A" "a" "B" "b"
unfolding same str_eq str_lt lex_lt
folds = record {
  first_sorted = refl;
  second_sorted = refl;
  one_row = refl;
  other_row = refl;
  apart = refl;
}

aliased_deadlock_example :
    Reach ⦃e = folding⦄ 2 (crossed "A" "a" "B" "b") stuck
    × ((pc' : ℕ → Pc) → ¬ Step ⦃e = folding⦄ 2 (crossed "A" "a" "B" "b") stuck pc')
aliased_deadlock_example = aliased_deadlock ⦃e = folding⦄ "A" "a" "B" "b" folds

folded-IsSound : IsSound ⦃e = folding⦄ bank
unfolding accounts_table same str_eq
folded-IsSound = record { keys = ((refl, (refl, tt))); lawful = (refl, (refl, tt)) }

transfer_to_itself_example :
    ((serve ⦃e = folding⦄ (request "a1" "A1" "x1") world).0
      ≡ ok (ledger_row "a1" "A1" (pos 2000) "x1" 7))
    × ((key : String)
        → (bank_of ⦃e = folding⦄
              (serve ⦃e = folding⦄ (request "a1" "A1" "x1") world).1.committed).holding
            key
          ≡ (bank_of ⦃e = folding⦄ bank).holding key)
unfolding same str_eq quantize is_admin owns bank_of
transfer_to_itself_example =
    transfer_to_itself ⦃e = folding⦄ (request "a1" "A1" "x1") (pos 2000) (account "a1" "c1" 10000)
      world folded-IsSound refl refl refl (omega arith) refl refl (omega arith) refl

-- The world after the transfer of twenty.
abbrev entered : World
entered = record world {
  committed = record bank { transactions = ledger_row "a1" "a2" (pos 2000) "x1" 7 ∷ [] };
}

get_visible_example : ((get "x1" owner entered).0 ≡ ok (ledger_row "a1" "a2" (pos 2000) "x1" 7)) ↔ (
    (find (λ (r : Transaction). same r.transaction_id "x1") entered.committed.transactions
      ≡ some (ledger_row "a1" "a2" (pos 2000) "x1" 7))
    × MaySee owner (ledger_row "a1" "a2" (pos 2000) "x1" 7) entered.committed)
get_visible_example = get_visible "x1" owner entered (ledger_row "a1" "a2" (pos 2000) "x1" 7)
