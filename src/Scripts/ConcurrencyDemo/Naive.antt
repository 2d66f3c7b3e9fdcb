-- ===== src/Scripts/ConcurrencyDemo/Naive.antt =====
-- The sum of the balances under the `naive_transfer` of scripts/concurrency_demo.py.
use corebank_api.Scripts.ConcurrencyDemo.{
  Call, Stage, naive_transfer, settled, checked, change_balance, Storm, placed, storm, reading,
  debiting, crediting, crashed, rejected, done, debit_failed, credit_failed,
}
use corebank_api.Prelude.{
  neg_part, ◌-ℤ◌, All, pos_part, ◌∙◌, [], none, ◌∷◌, some, List, ap, Option, Bool, inr, int_laws,
  sym, subst, true, inl, refl, false, Bool-cases, ◌==◌, arith, zero, suc, ◌+ℤ◌, pos, ◌≤◌, ◌<◌, ◌≡◌,
  String, ℕ, ℤ,
}
use corebank_api.Database.Engine.{same, Engine}
use corebank_api.Database.Schema.{Account, Db}
use corebank_api.Repositories.Accounts.Money.{
  lower, raise_balance, IsSound-replace, total_balance, is_account, IsSound,
}
use corebank_api.Database.Statement.{Session}
use corebank_api.Database.Rows.{find, count, exists}
use corebank_api.Errors.{err, Result, Exception, ok}
use corebank_api.Database.Rows.Keys.{count-UniqueKey}
use corebank_api.Database.Statement.Effects.{execute_update_ok}
use corebank_api.Database.Tables.{accounts_table}
use corebank_api.Database.Rows.Replace.{exists-replace, sum_of-replace}

-- What a call has taken from its sender and not given to its receiver.
abbrev pub owed : Call → Stage → ℤ
owed call crediting = call.amount
owed call (credit_failed x) = call.amount
owed call stage = pos 0

-- The same of the first `n` calls.
abbrev pub in_flight : (ℕ → Call) → (ℕ → Stage) → ℕ → ℤ
in_flight calls stage zero = pos 0
in_flight calls stage (suc n) = in_flight calls stage n +ℤ owed (calls n) (stage n)

shift : (a b c d x : ℤ) → a +ℤ b ≡ c +ℤ d → (a +ℤ x) +ℤ b ≡ (c +ℤ x) +ℤ d
shift a b c d x h = omega (int_laws, ap pos_part h, ap neg_part h)

swap : (t t' o o' f f' : ℤ) → t' +ℤ o' ≡ t +ℤ o → f' +ℤ o ≡ f +ℤ o' → t' +ℤ f' ≡ t +ℤ f
swap t t' o o' f f' h k =
    omega (int_laws, ap pos_part h, ap neg_part h, ap pos_part k, ap neg_part k)

add_zero : (x : ℤ) → x +ℤ pos 0 ≡ x
add_zero x = omega int_laws

in_flight_outside :
    (calls : ℕ → Call) (stage : ℕ → Stage) (i : ℕ) (p : Stage) (n : ℕ)
    → n ≤ i
    → in_flight calls (placed stage i p) n ≡ in_flight calls stage n
in_flight_outside calls stage i p zero out = refl
in_flight_outside calls stage i p (suc n) out =
    let other : (i == n) ≡ false = ground arith in
    rw (in_flight_outside calls stage i p n (omega (arith, out)), other)

in_flight-placed :
    (calls : ℕ → Call) (stage : ℕ → Stage) (i : ℕ) (p : Stage) (n : ℕ)
    → i < n
    → in_flight calls (placed stage i p) n +ℤ owed (calls i) (stage i)
      ≡ in_flight calls stage n +ℤ owed (calls i) p
in_flight-placed calls stage i p zero below = absurd (omega (arith, below))
in_flight-placed calls stage i p (suc n) below = elim (Bool-cases (i == n)) [
  | inl e ↦
      let here : i ≡ n = ground arith in
      rw (e, in_flight_outside calls stage i p n (omega (arith, here)))
        (subst
          (λ k.
            (in_flight calls stage n +ℤ owed (calls n) p) +ℤ owed (calls k) (stage k)
            ≡ (in_flight calls stage n +ℤ owed (calls n) (stage n)) +ℤ owed (calls k) p)
          (sym here) (omega int_laws))
  | inr e ↦
      let ih = in_flight-placed calls stage i p n (ground arith) in
      rw e (shift _ _ _ _ (owed (calls n) (stage n)) ih)
]

none_in_flight : (calls : ℕ → Call) (n : ℕ) → in_flight calls (λ i. reading) n ≡ pos 0
unfolding ◌+ℤ◌
none_in_flight calls zero = refl
none_in_flight calls (suc n) = rw (none_in_flight calls n) refl

count_of_exists : {R : Type 0} (p : R → Bool) (xs : List R) → exists p xs ≡ true → 1 ≤ count p xs
count_of_exists p [] h = cc
count_of_exists p (x ∷ xs) h = ground (arith, count_of_exists p xs)

module _ ⦃e : Engine⦄ where
  -- Unique ids, constraints that hold, and both accounts of every call.
  record Holds (calls : ℕ → Call) (n : ℕ) (db : Db) : Type 0 where
    sound : IsSound db
    senders : (i : ℕ) → i < n → exists (is_account (calls i).sender) db.accounts ≡ true
    receivers : (i : ℕ) → i < n → exists (is_account (calls i).receiver) db.accounts ≡ true

  -- An UPDATE of the balance of one account: what it adds to the sum, if it goes through.
  change_lem :
      (id : String) (f : Account → Account) (d : ℤ) (db : Db) {k : ℕ} {s : Session}
      → ((a : Account) → (f a).account_id ≡ a.account_id)
      → ((a : Account) → (f a).balance ≡ a.balance +ℤ d)
      → IsSound db
      → exists (is_account id) db.accounts ≡ true
      → change_balance id f db ≡ (ok k, s)
      → (total_balance s.db ≡ total_balance db +ℤ d)
        × IsSound s.db
        × ((key : String)
            → exists (is_account key) s.db.accounts ≡ exists (is_account key) db.accounts)
  unfolding change_balance accounts_table
  change_lem id f d db {s = s} stable adds sound there h =
      let one : count (is_account id) db.accounts ≡ 1 = omega (
        arith,
        count_of_exists (is_account id) db.accounts there,
        count-UniqueKey (λ (r : Account). r.account_id) id db.accounts sound.keys,
      ) in
      let (_, left, passed) =
        execute_update_ok accounts_table (is_account id) f (record { db = db; locks = [] }) h in
      let total =
        sum_of-replace (is_account id) f (λ (a : Account). a.balance) d db.accounts adds one in
      let kept = IsSound-replace (is_account id) f db stable passed sound in
      let same_ids = λ (key : String).
        exists-replace (is_account id) f (is_account key) (λ a. ap (λ k. same k key) (stable a))
          db.accounts in
      subst
        (λ (t : Session).
          (total_balance t.db ≡ total_balance db +ℤ d)
          × IsSound t.db
          × ((key : String)
              → exists (is_account key) t.db.accounts ≡ exists (is_account key) db.accounts))
        (sym left) (total, kept, same_ids)

  -- What a step keeps: the sum with what is owed, the soundness, and which accounts there are.
  abbrev Kept : Call → Stage → Db → Stage × Db → Type 0
  Kept call p db r =
      (total_balance r.1 +ℤ owed call r.0 ≡ total_balance db +ℤ owed call p)
      × IsSound r.1
      × ((key : String)
          → exists (is_account key) r.1.accounts ≡ exists (is_account key) db.accounts)

  checked_lem :
      (call : Call) (found : Option Account) → owed call (checked found call.amount) ≡ pos 0
  checked_lem call none = refl
  checked_lem call (some a) = ground arith

  settled_lem :
      (id : String) (f : Account → Account) (d : ℤ) (call : Call) (p next : Stage)
      (failed : Exception → Stage) (db : Db)
      → ((a : Account) → (f a).account_id ≡ a.account_id)
      → ((a : Account) → (f a).balance ≡ a.balance +ℤ d)
      → ((x : ℤ) → (x +ℤ d) +ℤ owed call next ≡ x +ℤ owed call p)
      → ((x : Exception) → owed call (failed x) ≡ owed call p)
      → IsSound db
      → exists (is_account id) db.accounts ≡ true
      → Kept call p db (settled (change_balance id f db) db next failed)
  settled_lem id f d call p next failed db stable adds even odd sound there =
      go (change_balance id f db) refl
    where
      go :
          (r : Result ℕ × Session)
          → change_balance id f db ≡ r
          → Kept call p db (settled r db next failed)
      go (ok k, s) h =
          let (total, kept, same_ids) =
            change_lem id f d db {k = k} {s = s} stable adds sound there h in
          (ap (λ x. x +ℤ owed call next) total ∙ even (total_balance db), kept, same_ids)
      go (err x, s) h = (ap (λ y. total_balance db +ℤ y) (odd x), sound, λ key. refl)

  step_lem :
      (call : Call) (p : Stage) (db : Db)
      → IsSound db
      → exists (is_account call.sender) db.accounts ≡ true
      → exists (is_account call.receiver) db.accounts ≡ true
      → Kept call p db (naive_transfer call p db)
  unfolding naive_transfer
  step_lem call reading db sound from to = (
    ap (λ x. total_balance db +ℤ x) (checked_lem call (find (is_account call.sender) db.accounts)),
    sound,
    λ key. refl,
  )
  step_lem call debiting db sound from to =
      settled_lem call.sender (lower call.amount) (pos 0 -ℤ call.amount) call debiting crediting
        debit_failed db (λ a. refl) (λ a. omega int_laws) (λ x. omega int_laws) (λ x. refl) sound
        from
  step_lem call crediting db sound from to =
      settled_lem call.receiver (raise_balance call.amount) call.amount call crediting done
        credit_failed db (λ a. refl) (λ a. refl) (λ x. omega int_laws) (λ x. refl) sound to
  step_lem call crashed db sound from to = (refl, sound, λ key. refl)
  step_lem call rejected db sound from to = (refl, sound, λ key. refl)
  step_lem call done db sound from to = (refl, sound, λ key. refl)
  step_lem call (debit_failed x) db sound from to = (refl, sound, λ key. refl)
  step_lem call (credit_failed x) db sound from to = (refl, sound, λ key. refl)

  next-Holds :
      (calls : ℕ → Call) (n : ℕ) (db db' : Db)
      → Holds calls n db
      → IsSound db'
      → ((key : String)
          → exists (is_account key) db'.accounts ≡ exists (is_account key) db.accounts)
      → Holds calls n db'
  next-Holds calls n db db' h sound kept = record {
    sound = sound;
    senders = λ i lt. kept (calls i).sender ∙ h.senders i lt;
    receivers = λ i lt. kept (calls i).receiver ∙ h.receivers i lt;
  }

  -- the sum of the balances and of what is owed
  abbrev pub money : (ℕ → Call) → ℕ → Storm → ℤ
  money calls n s = total_balance s.database +ℤ in_flight calls s.stage n

  storm_lem :
      (calls : ℕ → Call) (n : ℕ) (schedule : List ℕ) (s : Storm)
      → All (λ i. i < n) schedule
      → Holds calls n s.database
      → IsSound (storm calls schedule s).database
        × (money calls n (storm calls schedule s) ≡ money calls n s)
  unfolding storm
  storm_lem calls n [] s within h = (h.sound, refl)
  storm_lem calls n (i ∷ rest) s within h =
      let (p, db) = naive_transfer (calls i) (s.stage i) s.database in
      let (total, sound, kept) =
        step_lem (calls i) (s.stage i) s.database h.sound (h.senders i within.0)
          (h.receivers i within.0) in
      let next : Storm = record { database = db; stage = placed s.stage i p } in
      let (sound_end, money_end) =
        storm_lem calls n rest next within.1 (next-Holds calls n s.database db h sound kept) in
      (
        sound_end,
        money_end ∙ swap _ _ _ _ _ _ total (in_flight-placed calls s.stage i p n within.0),
      )

  -- From a sound database that has the accounts of all calls, threads of the naive transfer, in any
  -- order of their statements, keep the account ids unique and the constraints of the accounts, but
  -- not the sum of the balances: from that is missing, at any moment, what the calls between their
  -- two updates have taken, and for good what those have taken whose second update failed.
  pub naive_owes :
      (calls : ℕ → Call) (n : ℕ) (schedule : List ℕ) (db : Db)
      → All (λ i. i < n) schedule
      → IsSound db
      → ((i : ℕ) → i < n → exists (is_account (calls i).sender) db.accounts ≡ true)
      → ((i : ℕ) → i < n → exists (is_account (calls i).receiver) db.accounts ≡ true)
      → let final = storm calls schedule (record { database = db; stage = λ i. reading }) in
        IsSound final.database
        × (total_balance final.database +ℤ in_flight calls final.stage n ≡ total_balance db)
  naive_owes calls n schedule db within sound senders receivers =
      let (sound_end, money_end) =
        storm_lem calls n schedule (record { database = db; stage = λ i. reading }) within
          (record { sound = sound; senders = senders; receivers = receivers }) in
      (
        sound_end,
        money_end
            ∙ ap (λ x. total_balance db +ℤ x) (none_in_flight calls n)
            ∙ add_zero (total_balance db),
      )
