-- ===== src/Services/Transaction/Locking/Aliased.antt =====
-- Two transfers of app/services/transaction_service.py can wait for each other where the collation
-- takes two spellings for one id: the order of the locks is that of the texts in Python.
use native.Mathlib.Decide.{ℕ_discrete}
use corebank_api.Prelude.{
  String, subst, inr, ◌⊎◌, inl, ◌<◌, arith, refl, false, true, ◌==◌, ◌≡◌, if◌then◌else◌, str_lt, ℕ,
}
use corebank_api.Database.Engine.{same, Engine}
use corebank_api.Services.Transaction.Locking.{
  update, has_lock, IsFree, Step, wants_second, Reach, order, wants_first, Pc, Calls, lock_first,
  lock_second, end_unit, start, later,
}
use corebank_api.Services.Transaction.{sorted_pair}

-- One transfer from `a` to `b'`, and one from `b` to `a'`.
abbrev pub crossed : String → String → String → String → Calls
crossed a a' b b' i = if i == 0 then (a, b') else (b, a')

abbrev pub stuck : ℕ → Pc
stuck = update (update (λ _. wants_first) 0 wants_second) 1 wants_second

two : (j : ℕ) → j < 2 → (j ≡ 0) ⊎ (j ≡ 1)
two j lt = elim (ℕ_discrete j 0) [ yes e ↦ inl e | no ne ↦ inr (omega (arith, lt, ne)) ]

all_wait : (j : ℕ) → j < 2 → stuck j ≡ wants_second
all_wait j lt = elim (two j lt) [ inl z ↦ rw z refl | inr z ↦ rw z refl ]

kept_order : (x y : String) → str_lt y x ≡ false → sorted_pair x y ≡ (x, y)
unfolding sorted_pair
kept_order x y h = rw h refl

module _ ⦃e : Engine⦄ (a a' b b' : String) where
  -- The texts are in the order in which the two calls name them, and two of them name one row each.
  pub record AreAliased : Type 0 where
    pub first_sorted : str_lt b' a ≡ false
    pub second_sorted : str_lt a' b ≡ false
    pub one_row : same a a' ≡ true
    pub other_row : same b b' ≡ true
    pub apart : same a b ≡ false

  module _ (h : AreAliased) where
    first_order : order (crossed a a' b b') 0 ≡ (a, b')
    first_order = kept_order a b' h.first_sorted

    second_order : order (crossed a a' b b') 1 ≡ (b, a')
    second_order = kept_order b a' h.second_sorted

    second-IsFree :
        IsFree 2
          (crossed a a' b b')
          (update (λ _. wants_first) 0 wants_second)
          1
          (order (crossed a a' b b') 1).0
    second-IsFree j lt ne = elim (two j lt) [
      | inl zeroth ↦ rw zeroth (rw (first_order, second_order) h.apart)
      | inr first ↦ absurd (ne first)
    ]

    taken_first :
        has_lock (stuck 1) (order (crossed a a' b b') 1) (order (crossed a a' b b') 0).1 ≡ true
    taken_first = rw (first_order, second_order) h.other_row

    taken_second :
        has_lock (stuck 0) (order (crossed a a' b b') 0) (order (crossed a a' b b') 1).1 ≡ true
    taken_second = rw (first_order, second_order) h.one_row

    blocked : (pc' : ℕ → Pc) → ¬ Step 2 (crossed a a' b b') stuck pc'
    blocked pc' (lock_first i lt at open_row) = cc (all_wait i lt, at)
    blocked pc' (lock_second i lt at open_row) =
        let calls = crossed a a' b b' in
        elim (two i lt) [
          | inl z ↦
              let free : IsFree 2 calls stuck 0 (order calls 0).1 =
                subst (λ k. IsFree 2 calls stuck k (order calls k).1) z open_row in
              cc (free 1 (omega arith) (omega arith), taken_first)
          | inr z ↦
              let free : IsFree 2 calls stuck 1 (order calls 1).1 =
                subst (λ k. IsFree 2 calls stuck k (order calls k).1) z open_row in
              cc (free 0 (omega arith) (omega arith), taken_second)
        ]
    blocked pc' (end_unit i lt at) = cc (all_wait i lt, at)

    -- If the database takes `a` and `a'` for one id and `b` and `b'` for another, and if `b'` is not
    -- below `a` and `a'` not below `b` as texts, then a transfer from `a` to `b'` and one from `b` to
    -- `a'` can get into a state in which neither can take a step.
    pub aliased_deadlock :
        Reach 2 (crossed a a' b b') stuck
        × ((pc' : ℕ → Pc) → ¬ Step 2 (crossed a a' b b') stuck pc')
    aliased_deadlock = (
      later (later start (lock_first 0 (omega arith) refl (λ j lt ne. refl)))
          (lock_first 1 (omega arith) refl second-IsFree),
      blocked,
    )
