-- ===== src/Database/Pool/Once.antt =====
-- The double-checked creation of app/db/pool.py builds one pool.
use corebank_api.Database.Pool.{
  start, init_pool, later, give, release, build_pool, look_again, acquire, look, reading, releasing,
  building, second_test, wants_lock, first_test, returned, Place, Process, Reach, Step, moved,
  after_first, after_second, initial,
}
use corebank_api.Prelude.{
  sym, ◌≤◌, ap, refl, inr, subst, arith, inl, ◌==◌, Bool-cases, ◌⊎◌, some, ◌≢◌, none, ◌≡◌, Option,
  ℕ,
}

-- What holds of a thread, by `_pool` and the holder of the lock.
abbrev At : Option ℕ → Option ℕ → ℕ → Place → Type 0
At pool holder i first_test = Unit {0}
At pool holder i wants_lock = Unit {0}
At pool holder i second_test = holder ≡ some i
At pool holder i building = (holder ≡ some i) × (pool ≡ none)
At pool holder i releasing = (holder ≡ some i) × (pool ≡ some 0)
At pool holder i reading = pool ≡ some 0
At pool holder i (returned p) = (p ≡ some 0) × (pool ≡ some 0)

-- At most one pool is built, and it is `_pool`.
abbrev Counted : Option ℕ → ℕ → Type 0
Counted pool built = ((pool ≡ none) × (built ≡ 0)) ⊎ ((pool ≡ some 0) × (built ≡ 1))

record Inv (s : Process) : Type 0 where
  counted : Counted s.pool s.built
  placed : (i : ℕ) → At s.pool s.holder i (s.place i)

at_moved :
    (pool holder : Option ℕ) (place : ℕ → Place) (i : ℕ) (p : Place)
    → At pool holder i p
    → ((j : ℕ) → j ≢ i → At pool holder j (place j))
    → (j : ℕ) → At pool holder j (moved place i p j)
at_moved pool holder place i p own others j = elim (Bool-cases (i == j)) [
  | inl e ↦
      let same_thread : i ≡ j = ground arith in
      rw e (subst (λ k. At pool holder k p) same_thread own)
  | inr e ↦ rw e (others j (ground arith))
]

-- A thread that does not hold the lock knows nothing of who does.
at_held :
    (pool holder next : Option ℕ) (j : ℕ) (p : Place)
    → holder ≢ some j
    → At pool holder j p
    → At pool next j p
at_held pool holder next j first_test free a = tt
at_held pool holder next j wants_lock free a = tt
at_held pool holder next j second_test free a = absurd (free a)
at_held pool holder next j building free a = absurd (free a.0)
at_held pool holder next j releasing free a = absurd (free a.0)
at_held pool holder next j reading free a = a
at_held pool holder next j (returned p) free a = a

-- Nor does it lose anything when the first pool is built.
at_built :
    (pool holder : Option ℕ) (n j : ℕ) (p : Place)
    → holder ≢ some j
    → n ≡ 0
    → At pool holder j p
    → At (some n) holder j p
at_built pool holder n j first_test free first a = tt
at_built pool holder n j wants_lock free first a = tt
at_built pool holder n j second_test free first a = absurd (free a)
at_built pool holder n j building free first a = absurd (free a.0)
at_built pool holder n j releasing free first a = absurd (free a.0)
at_built pool holder n j reading free first a = ap some first
at_built pool holder n j (returned p) free first a = (a.0, ap some first)

not_held : (i j : ℕ) {h : Option ℕ} → h ≡ some i → j ≢ i → h ≢ some j
not_held i j held ne k = ne (ground arith)

none_held : (j : ℕ) {h : Option ℕ} → h ≡ none → h ≢ some j
none_held j free k = absurd (ground arith)

at_first :
    (pool holder : Option ℕ) (built i : ℕ)
    → Counted pool built
    → At pool holder i (after_first pool)
unfolding after_first
at_first pool holder built i (inl (gone, _)) = rw gone tt
at_first pool holder built i (inr (there, _)) = rw there refl

at_second :
    (pool holder : Option ℕ) (built i : ℕ)
    → Counted pool built
    → holder ≡ some i
    → At pool holder i (after_second pool)
unfolding after_second
at_second pool holder built i (inl (gone, _)) held = rw gone (held, refl)
at_second pool holder built i (inr (there, _)) held = rw there (held, refl)

-- The first pool has the number 0.
first_pool : (pool : Option ℕ) (built : ℕ) → Counted pool built → pool ≡ none → built ≡ 0
first_pool pool built (inl (_, zeroth)) gone = zeroth
first_pool pool built (inr (there, _)) gone = absurd (ground arith)

Step-Inv : (s t : Process) → Inv s → Step s t → Inv t
Step-Inv s t inv (look i at) = record {
  counted = inv.counted;
  placed =
      at_moved s.pool s.holder s.place i (after_first s.pool)
        (at_first s.pool s.holder s.built i inv.counted) (λ j ne. inv.placed j);
}
Step-Inv s t inv (acquire i at free) = record {
  counted = inv.counted;
  placed =
      at_moved s.pool (some i) s.place i second_test refl
        (λ j ne. at_held s.pool s.holder (some i) j (s.place j) (none_held j free) (inv.placed j));
}
Step-Inv s t inv (look_again i at) =
    let held : s.holder ≡ some i = subst (λ p. At s.pool s.holder i p) at (inv.placed i) in
    record {
      counted = inv.counted;
      placed =
          at_moved s.pool s.holder s.place i (after_second s.pool)
            (at_second s.pool s.holder s.built i inv.counted held) (λ j ne. inv.placed j);
    }
Step-Inv s t inv (build_pool i at) =
    let own : At s.pool s.holder i building =
      subst (λ p. At s.pool s.holder i p) at (inv.placed i) in
    let first = first_pool s.pool s.built inv.counted own.1 in
    record {
      counted = inr (ap some first, omega (arith, first));
      placed =
          at_moved (some s.built) s.holder s.place i releasing (own.0, ap some first)
            (λ j ne.
              at_built s.pool s.holder s.built j (s.place j) (not_held i j own.0 ne) first
                (inv.placed j));
    }
Step-Inv s t inv (release i at) =
    let own : At s.pool s.holder i releasing =
      subst (λ p. At s.pool s.holder i p) at (inv.placed i) in
    record {
      counted = inv.counted;
      placed = at_moved s.pool none s.place i reading own.1 (λ j ne.
          at_held s.pool s.holder none j (s.place j) (not_held i j own.0 ne) (inv.placed j));
    }
Step-Inv s t inv (give i at) =
    let there : s.pool ≡ some 0 = subst (λ p. At s.pool s.holder i p) at (inv.placed i) in
    record {
      counted = inv.counted;
      placed =
          at_moved s.pool s.holder s.place i (returned s.pool) (there, there)
            (λ j ne. inv.placed j);
    }

Reach-Inv : (s t : Process) → Inv s → Reach s t → Inv t
Reach-Inv s t inv start = inv
Reach-Inv s t inv (later {t = u} before step) = Step-Inv u t (Reach-Inv s u inv before) step

-- From a process without a pool, or with the one that `init_pool` has made of it, and without
-- resets: however the threads in `get_pool` are interleaved, at most one pool is ever built, every
-- call that has returned has returned that pool, which is also `_pool`, and no two threads are about
-- to build one at the same time.
pub one_pool :
    (s t : Process)
    → (s ≡ initial) ⊎ (s ≡ init_pool initial)
    → Reach s t
    → (t.built ≤ 1)
      × ((i : ℕ) (p : Option ℕ) → t.place i ≡ returned p → (p ≡ some 0) × (t.pool ≡ some 0))
      × ((i j : ℕ) → t.place i ≡ building → t.place j ≡ building → i ≡ j)
unfolding init_pool
one_pool s t from reach =
    let inv : Inv t =
      Reach-Inv s t
        (elim from [
          | inl e ↦ subst Inv (sym e) (record { counted = inl (refl, refl); placed = λ i. tt })
          | inr e ↦ subst Inv (sym e) (record { counted = inr (refl, refl); placed = λ i. tt })
        ])
        reach in
    (
      elim inv.counted [ inl (_, n) ↦ omega (arith, n) | inr (_, n) ↦ omega (arith, n) ],
      λ i p at. subst (λ q. At t.pool t.holder i q) at (inv.placed i),
      λ i j here there.
          let a : At t.pool t.holder i building =
            subst (λ q. At t.pool t.holder i q) here (inv.placed i) in
          let b : At t.pool t.holder j building =
            subst (λ q. At t.pool t.holder j q) there (inv.placed j) in
          ground arith,
    )
