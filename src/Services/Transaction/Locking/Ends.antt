-- ===== src/Services/Transaction/Locking/Ends.antt =====
-- How many steps transfers of app/services/transaction_service.py take that run at the same time.
use native.Mathlib.Decide.{ℕ_discrete}
use corebank_api.Prelude.{
  inr, subst, ◌⊎◌, inl, ℕ, zero, suc, ◌+◌, ◌*◌, ◌<◌, ◌≤◌, ◌≡◌, ◌≢◌, arith, str_eq, false, refl, sym,
}
use corebank_api.Database.Engine.{Engine}
use corebank_api.Services.Transaction.Locking.{
  Pc, wants_first, wants_second, inside, finished, Calls, Step, lock_first, lock_second, end_unit,
  update,
}
use corebank_api.Services.Transaction.Locking.Progress.{no_deadlock, OneSpelling}

-- the steps that a transfer has left
abbrev remaining : Pc → ℕ
remaining wants_first = 3
remaining wants_second = 2
remaining inside = 1
remaining finished = 0

abbrev work : ℕ → (ℕ → Pc) → ℕ
work zero pc = 0
work (suc n) pc = remaining (pc n) + work n pc

work-beyond : (n : ℕ) (pc : ℕ → Pc) (i : ℕ) (p : Pc) → n ≤ i → work n (update pc i p) ≡ work n pc
work-beyond zero pc i p le = refl
work-beyond (suc n) pc i p le = ground (arith, work-beyond n pc i p)

work-update :
    (n : ℕ) (pc : ℕ → Pc) (i : ℕ) (p : Pc)
    → i < n
    → remaining (pc i) ≡ suc (remaining p)
    → work n pc ≡ suc (work n (update pc i p))
work-update zero pc i p lt one = absurd (omega arith)
work-update (suc n) pc i p lt one = elim (ℕ_discrete i n) [
  | yes e ↦
      let at : remaining (pc n) ≡ suc (remaining p) =
        subst (λ j. remaining (pc j) ≡ suc (remaining p)) e one in
      ground (arith, work-beyond n pc i p (omega (arith, e)), at, e)
  | no ne ↦ ground (arith, work-update n pc i p (omega (arith, ne)) one)
]

work_start : (n : ℕ) → work n (λ _. wants_first) ≡ 3 * n
work_start zero = refl
work_start (suc n) = omega (arith, work_start n)

is_finished : (p : Pc) → remaining p ≡ 0 → p ≡ finished
is_finished wants_first e = absurd (omega (arith, e))
is_finished wants_second e = absurd (omega (arith, e))
is_finished inside e = absurd (omega (arith, e))
is_finished finished e = refl

no_work : (n : ℕ) (pc : ℕ → Pc) → work n pc ≡ 0 → (i : ℕ) → i < n → pc i ≡ finished
no_work zero pc e i lt = absurd (omega arith)
no_work (suc n) pc e i lt = elim (ℕ_discrete i n) [
  | yes q ↦ is_finished (pc i) (subst (λ j. remaining (pc j) ≡ 0) (sym q) (omega (arith, e)))
  | no q ↦ no_work n pc (omega (arith, e)) i (omega (arith, q))
]

Pc_cases : (p : Pc) → (p ≡ finished) ⊎ (p ≢ finished)
Pc_cases wants_first = inr λ e. cc e
Pc_cases wants_second = inr λ e. cc e
Pc_cases inside = inr λ e. cc e
Pc_cases finished = inl refl

some_work : (n : ℕ) (pc : ℕ → Pc) → 0 < work n pc → (i : ℕ) × (i < n) × (pc i ≢ finished)
some_work zero pc lt = absurd (omega arith)
some_work (suc n) pc lt = elim (Pc_cases (pc n)) [
  | inl done ↦
      let (i, below, going) =
        some_work n pc (omega (arith, subst (λ p. 0 < remaining p + work n pc) done lt)) in
      (i, omega (arith, below), going)
  | inr going ↦ (n, omega arith, going)
]

module _ ⦃e : Engine⦄ (n : ℕ) (calls : Calls) where
  -- A schedule of so many steps, from the calls on.
  pub data Run : ℕ → (ℕ → Pc) → Type 0 where
    start : Run 0 (λ _. wants_first)
    later : {k : ℕ} {pc pc' : ℕ → Pc} → Run k pc → Step n calls pc pc' → Run (suc k) pc'

  Step-works : {pc pc' : ℕ → Pc} → Step n calls pc pc' → work n pc ≡ suc (work n pc')
  Step-works {pc} (lock_first i lt at _) = work-update n pc i wants_second lt (rw at refl)
  Step-works {pc} (lock_second i lt at _) = work-update n pc i inside lt (rw at refl)
  Step-works {pc} (end_unit i lt at) = work-update n pc i finished lt (rw at refl)

  Run-works : {k : ℕ} {pc : ℕ → Pc} → Run k pc → k + work n pc ≡ 3 * n
  Run-works start = omega (arith, work_start n)
  Run-works (later run step) = omega (arith, Run-works run, Step-works step)

  -- However transfers between accounts with different ids are interleaved, if each row is named by one
  -- spelling of its id, a schedule has at most three steps for each transfer; one with fewer can go
  -- on, and after exactly so many all of them have finished.
  pub transfers_end :
      (k : ℕ) (pc : ℕ → Pc)
      → ((i : ℕ) → i < n → str_eq (calls i).0 (calls i).1 ≡ false)
      → OneSpelling n calls
      → Run k pc
      → (k ≤ 3 * n)
        × (k < 3 * n → (pc' : ℕ → Pc) × Step n calls pc pc')
        × (k ≡ 3 * n → (i : ℕ) → i < n → pc i ≡ finished)
  transfers_end k pc differ spelled run =
      let total = Run-works run in
      (
        omega (arith, total),
        λ short.
            (let (i, lt, going) = some_work n pc (omega (arith, total, short)) in
              no_deadlock n calls pc differ spelled i lt going),
        λ full. no_work n pc (omega (arith, total, full)),
      )
