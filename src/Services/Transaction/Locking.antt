-- ===== src/Services/Transaction/Locking.antt =====
-- Transfers of app/services/transaction_service.py that run at the same time, as far as their row
-- locks go: each locks two rows by `accounts.lock`, in the order that `sorted` gives, and keeps both
-- until its unit of work ends. The server grants a lock on a row that no other transaction has_lock.
pub mod Progress
pub mod Aliased
pub mod Ends
use corebank_api.Prelude.{◌||◌, ◌≡◌, ◌≢◌, ◌==◌, false, if◌then◌else◌, ◌<◌, ℕ, Bool, String}
use corebank_api.Database.Engine.{same, Engine}
use corebank_api.Services.Transaction.{sorted_pair}

-- Where a transfer stands.
pub data Pc : Type 0 where
  wants_first wants_second inside finished : Pc

-- The sender's and the receiver's id of each transfer.
abbrev pub Calls : Type 0
Calls = ℕ → String × String

abbrev pub order : Calls → ℕ → String × String
order calls i = sorted_pair (calls i).0 (calls i).1

abbrev pub update : (ℕ → Pc) → ℕ → Pc → ℕ → Pc
update pc i p j = if i == j then p else pc j

module _ ⦃e : Engine⦄ where
  -- whether a transfer has_lock a lock on the row of this id
  abbrev pub has_lock : Pc → String × String → String → Bool
  has_lock wants_first ids key = false
  has_lock wants_second ids key = same ids.0 key
  has_lock inside ids key = same ids.0 key || same ids.1 key
  has_lock finished ids key = false

  abbrev pub IsFree : ℕ → Calls → (ℕ → Pc) → ℕ → String → Type 0
  IsFree n calls pc i key = (j : ℕ) → j < n → j ≢ i → has_lock (pc j) (order calls j) key ≡ false

  -- One step of one of `n` transfers. The end of a unit of work, by COMMIT or by ROLLBACK, gives both
  -- locks back.
  pub data Step (n : ℕ) (calls : Calls) (pc : ℕ → Pc) : (ℕ → Pc) → Type 0 where
    lock_first :
        (i : ℕ)
        → i < n
        → pc i ≡ wants_first
        → IsFree n calls pc i (order calls i).0
        → Step n calls pc (update pc i wants_second)
    lock_second :
        (i : ℕ)
        → i < n
        → pc i ≡ wants_second
        → IsFree n calls pc i (order calls i).1
        → Step n calls pc (update pc i inside)
    end_unit : (i : ℕ) → i < n → pc i ≡ inside → Step n calls pc (update pc i finished)

  pub data Reach (n : ℕ) (calls : Calls) : (ℕ → Pc) → Type 0 where
    start : Reach n calls (λ _. wants_first)
    later : {pc pc' : ℕ → Pc} → Reach n calls pc → Step n calls pc pc' → Reach n calls pc'
