-- ===== src/Services/Transaction/Locking/Progress.antt =====
-- The deterministic order of the locks in app/services/transaction_service.py keeps transfers that
-- run at the same time from waiting for each other in a circle.
use native.Mathlib.Decide.{ℕ_discrete}
use corebank_api.Prelude.{
  refl, str_eq_iff, sym, ◌≢◌, ◌∷◌, subst, str_eq, [], zero, inr, ◌+◌, ◌≤◌, Bool-cases, inl, codes,
  arith, if◌then◌else◌, false, ◌⊎◌, true, ◌<◌, suc, ◌≡◌, List, str_lt, lex_lt, ℕ, String,
}
use corebank_api.Database.Engine.{same, Engine}
use corebank_api.Services.Transaction.Locking.{
  lock_first, lock_second, end_unit, finished, wants_first, Step, has_lock, inside, wants_second,
  order, IsFree, Calls, Pc,
}
use corebank_api.Services.Transaction.LockOrder.{lex_total, codes_injective, lex_asym}
use corebank_api.Services.Transaction.{sorted_pair}

lex_trans : (xs ys zs : List ℕ) → lex_lt xs ys ≡ true → lex_lt ys zs ≡ true → lex_lt xs zs ≡ true
unfolding lex_lt
lex_trans [] [] zs h k = cc
lex_trans [] (y ∷ ys) [] h k = cc
lex_trans [] (y ∷ ys) (z ∷ zs) h k = refl
lex_trans (x ∷ xs) [] zs h k = cc
lex_trans (x ∷ xs) (y ∷ ys) [] h k = cc
lex_trans (x ∷ xs) (y ∷ ys) (z ∷ zs) h k = ground (arith, lex_trans xs ys zs)

str_trans : (a b c : String) → str_lt a b ≡ true → str_lt b c ≡ true → str_lt a c ≡ true
unfolding str_lt
str_trans a b c = lex_trans (codes a) (codes b) (codes c)

str_irrefl : (a : String) → str_lt a a ≡ false
unfolding str_lt
str_irrefl a = lex_irrefl (codes a)
  where
    lex_irrefl : (xs : List ℕ) → lex_lt xs xs ≡ false
    lex_irrefl xs = elim (Bool-cases (lex_lt xs xs)) [ inl h ↦ lex_asym xs xs h | inr h ↦ h ]

str_total : (a b : String) → str_lt a b ≡ false → str_lt b a ≡ false → a ≡ b
unfolding str_lt
str_total a b h k = codes_injective a b (lex_total (codes a) (codes b) h k)

-- the transfers whose first lock is above a key
abbrev above : Calls → String → ℕ → ℕ
above calls key zero = 0
above calls key (suc n) = (if str_lt key (order calls n).0 then 1 else 0) + above calls key n

above-le :
    (calls : Calls) (a b : String) (n : ℕ) → str_lt a b ≡ true → above calls b n ≤ above calls a n
above-le calls a b zero h = omega arith
above-le calls a b (suc n) h =
    ground (arith, above-le calls a b n h, str_trans a b (order calls n).0 h)

above-lt :
    (calls : Calls) (a : String) (m n : ℕ)
    → m < n
    → str_lt a (order calls m).0 ≡ true
    → above calls (order calls m).0 n < above calls a n
above-lt calls a m zero lt h = absurd (omega arith)
above-lt calls a m (suc n) lt h = elim (ℕ_discrete m n) [
  | yes e ↦
      let at : str_lt a (order calls n).0 ≡ true =
        subst (λ k. str_lt a (order calls k).0 ≡ true) e h in
      let self = str_irrefl (order calls n).0 in
      subst (λ k. above calls (order calls k).0 (suc n) < above calls a (suc n)) (sym e)
        (rw (at, self) (omega (arith, above-le calls a (order calls n).0 n at)))
  | no ne ↦
      let ih = above-lt calls a m n (omega (arith, ne)) h in
      ground (arith, ih, str_trans a (order calls m).0 (order calls n).0 h)
]

module _ ⦃e : Engine⦄ where
  holder :
      (p : Pc) (ids : String × String) (key : String)
      → has_lock p ids key ≡ true
      → ((p ≡ wants_second) × (same ids.0 key ≡ true)) ⊎ (p ≡ inside)
  holder wants_first ids key h = cc
  holder wants_second ids key h = inl (refl, h)
  holder inside ids key h = inr refl
  holder finished ids key h = cc

  IsFree-or_held :
      (m : ℕ) (calls : Calls) (pc : ℕ → Pc) (i : ℕ) (key : String)
      → IsFree m calls pc i key ⊎ ((j : ℕ) × (j < m) × (has_lock (pc j) (order calls j) key ≡ true))
  IsFree-or_held zero calls pc i key = inl (λ j lt ne. absurd (omega arith))
  IsFree-or_held (suc m) calls pc i key = elim (Bool-cases (has_lock (pc m) (order calls m) key)) [
    | inl held ↦ inr (m, omega arith, held)
    | inr open_row ↦ elim (IsFree-or_held m calls pc i key) [
      | inl all_free ↦ inl (λ j lt ne. elim (ℕ_discrete j m) [
        | yes q ↦ subst (λ k. has_lock (pc k) (order calls k) key ≡ false) (sym q) open_row
        | no q ↦ all_free j (omega (arith, q)) ne
      ])
      | inr (j, lt, held) ↦ inr (j, omega (arith, lt), held)
    ]
  ]

  -- The ids in the calls name rows by one spelling each.
  abbrev pub IsNamed : ℕ → Calls → String → Type 0
  IsNamed n calls id = (i : ℕ) × (i < n) × ((id ≡ (calls i).0) ⊎ (id ≡ (calls i).1))

  abbrev pub OneSpelling : ℕ → Calls → Type 0
  OneSpelling n calls =
      (a b : String) → IsNamed n calls a → IsNamed n calls b → same a b ≡ true → a ≡ b

  named :
      (n : ℕ) (calls : Calls) (i : ℕ)
      → i < n
      → IsNamed n calls (order calls i).0 × IsNamed n calls (order calls i).1
  unfolding sorted_pair
  named n calls i lt = elim (Bool-cases (str_lt (calls i).1 (calls i).0)) [
    | inl h ↦ rw h ((i, lt, inr refl), (i, lt, inl refl))
    | inr h ↦ rw h ((i, lt, inl refl), (i, lt, inr refl))
  ]

  ascending :
      (calls : Calls) (i : ℕ)
      → str_eq (calls i).0 (calls i).1 ≡ false
      → str_lt (order calls i).0 (order calls i).1 ≡ true
  unfolding sorted_pair
  ascending calls i differ = elim (Bool-cases (str_lt (calls i).1 (calls i).0)) [
    | inl h ↦ rw h h
    | inr h ↦ elim (Bool-cases (str_lt (calls i).0 (calls i).1)) [
      | inl k ↦ rw h k
      | inr k ↦ absurd (
          cc (
            (str_eq_iff (calls i).0 (calls i).1).1 (str_total (calls i).0 (calls i).1 k h),
            differ,
          ))
    ]
  ]

  -- A transfer that waits for its second row, or one further up the chain of those that wait, moves.
  second_moves :
      (n : ℕ) (calls : Calls) (pc : ℕ → Pc)
      → ((i : ℕ) → i < n → str_eq (calls i).0 (calls i).1 ≡ false)
      → OneSpelling n calls
      → (k i : ℕ) → i < n
      → pc i ≡ wants_second
      → above calls (order calls i).0 n < k
      → (pc' : ℕ → Pc) × Step n calls pc pc'
  second_moves n calls pc differ spelled zero i lt at few = absurd (omega (arith, few))
  second_moves n calls pc differ spelled (suc k) i lt at few =
      elim (IsFree-or_held n calls pc i (order calls i).1) [
        | inl open_row ↦ (_, lock_second i lt at open_row)
        | inr (j, below, held) ↦ elim (holder (pc j) (order calls j) (order calls i).1 held) [
          | inr in_block ↦ (_, end_unit j below in_block)
          | inl (waiting, one_row) ↦
              let e : (order calls j).0 ≡ (order calls i).1 =
                spelled _ _ (named n calls j below).0 (named n calls i lt).1 one_row in
              let up : str_lt (order calls i).0 (order calls j).0 ≡ true =
                subst (λ s. str_lt (order calls i).0 s ≡ true) (sym e)
                  (ascending calls i (differ i lt)) in
              second_moves n calls pc differ spelled k j below waiting
                (omega (arith, above-lt calls (order calls i).0 j n below up, few))
        ]
      ]

  -- No deadlock. However transfers between accounts with different ids are interleaved, if each row
  -- is named by one spelling of its id, then as long as one of them has not finished, one of them can
  -- take its next step.
  pub no_deadlock :
      (n : ℕ) (calls : Calls) (pc : ℕ → Pc)
      → ((i : ℕ) → i < n → str_eq (calls i).0 (calls i).1 ≡ false)
      → OneSpelling n calls
      → (i : ℕ) → i < n
      → pc i ≢ finished
      → (pc' : ℕ → Pc) × Step n calls pc pc'
  no_deadlock n calls pc differ spelled i lt going = go (pc i) refl
    where
      go : (p : Pc) → pc i ≡ p → (pc' : ℕ → Pc) × Step n calls pc pc'
      go finished at = absurd (going at)
      go inside at = (_, end_unit i lt at)
      go wants_second at =
          second_moves n calls pc differ spelled (suc (above calls (order calls i).0 n)) i lt at
            (omega arith)
      go wants_first at = elim (IsFree-or_held n calls pc i (order calls i).0) [
        | inl open_row ↦ (_, lock_first i lt at open_row)
        | inr (j, below, held) ↦ elim (holder (pc j) (order calls j) (order calls i).0 held) [
          | inr in_block ↦ (_, end_unit j below in_block)
          | inl (waiting, _) ↦
              second_moves n calls pc differ spelled (suc (above calls (order calls j).0 n)) j below
                waiting (omega arith)
        ]
      ]
