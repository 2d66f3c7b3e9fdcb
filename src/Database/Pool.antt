-- ===== src/Database/Pool.antt =====
-- app/db/pool.py: the one pool of the process and its creation on first use, by threads that may be
-- in `get_pool` at the same time. A pool of the third-party library is known here by the number of
-- pools built before it. Its construction is taken to succeed.
pub mod Once
use corebank_api.Prelude.{if◌then◌else◌, none, some, Option, ◌≡◌, ◌==◌, ◌+◌, ℕ}

-- Where a thread stands in `get_pool`: before the first test, before the lock, before the second
-- test, before the construction, before the release of the lock, before `return _pool`, after it.
pub data Place : Type 0 where
  first_test wants_lock second_test building releasing reading : Place
  returned : Option ℕ → Place

-- The globals `_pool` and `_lock` with the thread that holds it, the number of pools built, and the
-- threads.
pub record Process : Type 0 where
  pub pool : Option ℕ
  pub holder : Option ℕ
  pub built : ℕ
  pub place : ℕ → Place

abbrev pub moved : (ℕ → Place) → ℕ → Place → ℕ → Place
moved place i p j = if i == j then p else place j

-- `if _pool is None`
unfoldable pub after_first : Option ℕ → Place
after_first none = wants_lock
after_first (some _) = reading

unfoldable pub after_second : Option ℕ → Place
after_second none = building
after_second (some _) = releasing

-- One step of a thread in `get_pool`.
pub data Step (s : Process) : Process → Type 0 where
  look :
      (i : ℕ)
      → s.place i ≡ first_test
      → Step s (record s { place = moved s.place i (after_first s.pool) })
  acquire :
      (i : ℕ)
      → s.place i ≡ wants_lock
      → s.holder ≡ none
      → Step s (record s { place = moved s.place i second_test; holder = some i })
  look_again :
      (i : ℕ)
      → s.place i ≡ second_test
      → Step s (record s { place = moved s.place i (after_second s.pool) })
  build_pool :
      (i : ℕ)
      → s.place i ≡ building
      → Step s
          (record s { place = moved s.place i releasing; pool = some s.built; built = s.built + 1 })
  release :
      (i : ℕ)
      → s.place i ≡ releasing
      → Step s (record s { place = moved s.place i reading; holder = none })
  give :
      (i : ℕ)
      → s.place i ≡ reading
      → Step s (record s { place = moved s.place i (returned s.pool) })

-- A process without a pool, in which any number of threads are about to call `get_pool`.
abbrev pub initial : Process
initial = record { pool = none; holder = none; built = 0; place = λ i. first_test }

-- `init_pool`, which the application factory calls before there are other threads, and `reset_pool`
-- of the tests
unfoldable pub init_pool : Process → Process
init_pool s = record s { pool = some s.built; built = s.built + 1 }

unfoldable pub reset_pool : Process → Process
reset_pool s = record s { pool = none }

pub data Reach (s : Process) : Process → Type 0 where
  start : Reach s s
  later : {t u : Process} → Reach s t → Step t u → Reach s u
