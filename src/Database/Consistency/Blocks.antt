-- ===== src/Database/Consistency/Blocks.antt =====
-- The blocks that the services run, in a unit of work with its integrity errors translated.
use corebank_api.Database.Consistency.Keeps.{
  Serves-read, Serves-after, Keeps, Serves, Keeps-guard, Keeps-bind, Keeps-read, Serves-uow,
}
use corebank_api.Prelude.{ℕ}
use corebank_api.Database.Engine.{Engine}
use corebank_api.Database.Statement.{some_row, pure, require_row, ◌>>◌, ◌>>=◌, Session, Stmt}
use corebank_api.Errors.{ok, Result, Exception}
use corebank_api.Database.Uow.{integrity_guard, unit_of_work}

module _ ⦃e : Engine⦄ {A : Type 0} where
  pub guarded-Serves : (m : Stmt A) → Keeps m → Serves (unit_of_work (integrity_guard m))
  guarded-Serves m k = Serves-uow (integrity_guard m) (Keeps-guard m k)

  -- a row is stored and handed back
  pub created-Serves :
      (m : Stmt (Unit {0})) (row : A)
      → Keeps m
      → Serves (unit_of_work (integrity_guard (m >> pure row)))
  created-Serves m row k =
      guarded-Serves (m >> pure row) (Keeps-bind m (λ _. pure row) k λ _. Keeps-read λ _. ok row)

  -- a row that has to exist is changed and read back
  pub changed-Serves :
      (m : Stmt ℕ) (x : Exception) (f : Session → Result A)
      → Keeps m
      → Serves (unit_of_work (integrity_guard (m >>= λ n. require_row n x >> λ s. (f s, s))))
  changed-Serves m x f k = guarded-Serves (m >>= λ n. require_row n x >> λ s. (f s, s)) (
      Keeps-bind m (λ n. require_row n x >> λ s. (f s, s)) k
        λ n.
          Keeps-bind (require_row n x) (λ _ s. (f s, s)) (Keeps-read (λ _. some_row n x))
            λ _. Keeps-read f)

module _ ⦃e : Engine⦄ where
  -- a row that has to exist is removed
  pub removed-Serves :
      (m : Stmt ℕ) (x : Exception)
      → Keeps m
      → Serves (unit_of_work (integrity_guard (m >>= λ n. require_row n x)))
  removed-Serves m x k =
      guarded-Serves (m >>= λ n. require_row n x)
        (Keeps-bind m (λ n. require_row n x) k λ n. Keeps-read λ _. some_row n x)

-- The rules that show what a service does to be consistent, once its statements are.
pub ruleset serves_rules = (
  created-Serves, changed-Serves, removed-Serves, Serves-after, Serves-read, Serves-uow,
  Keeps-guard, Keeps-bind, Keeps-read,
)
