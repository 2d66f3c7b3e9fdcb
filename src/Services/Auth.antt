-- ===== src/Services/Auth.antt =====
-- app/services/auth_service.py
pub mod Login
use corebank_api.Repositories.Users
use corebank_api.Prelude.{none, if◌then◌else◌, some, Bool, Option, String, ℕ}
use corebank_api.Errors.{ok, err, auth_error, Result, app, Exception}
use corebank_api.Database.Engine.{Engine}
use corebank_api.Database.Schema.{User, Role}
use corebank_api.Database.Uow.{read_only, after, Action}

-- What the code relies on in `werkzeug.security`, which is not in the repository. A hash is salted
-- with the random text that is its first argument.
pub record Hasher : Type 0 where
  pub generate_password_hash : String → String → String
  pub check_password_hash : String → String → Bool

-- The principal that a token is made for.
pub record Principal : Type 0 where
  pub user_id : String
  pub role : Role
  pub customer_id : Option String

abbrev pub invalid_credentials : Exception
invalid_credentials = app auth_error "Invalid credentials"

unfoldable pub check_credentials : Hasher → Option User → String → Result Principal
check_credentials hasher none password = err invalid_credentials
check_credentials hasher (some u) password =
    if hasher.check_password_hash u.password password
    then ok (record { user_id = u.user_id; role = u.role; customer_id = u.customer_id })
    else err invalid_credentials

module _ ⦃e : Engine⦄ where
  unfoldable pub authenticate : Hasher → String → String → Action Principal
  unfolding check_credentials
  authenticate hasher username password =
      after (read_only (Users.get_by_username username))
        λ found. check_credentials hasher found password
