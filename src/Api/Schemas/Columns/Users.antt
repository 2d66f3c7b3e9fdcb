-- ===== src/Api/Schemas/Columns/Users.antt =====
-- The columns that `update` of app/repositories/users.py sets for a body of the blueprint.
use mathlib.Core.Option
use corebank_api.Repositories.Users.{Assignment}
use corebank_api.Repositories.Users
use corebank_api.Api.Schemas.Users.{user_update_schema}
use corebank_api.Api.Schemas.{Value}
use corebank_api.Api.Schemas.Updates.{
  read_entry, IsRead, strict-IsRead, optional-IsRead, named-IsRead,
}
use corebank_api.Api.Schemas.Values.{as_text, as_optional, as_named, string-IsReadable}
use corebank_api.Prelude.{String, List, [], ◌∷◌, Option, ◌≡◌, All, refl, str_eq, false}
use corebank_api.Database.Schema.{Role, admin, user}

-- `col` in the text of the statement
unfoldable pub column : Assignment → String
column (Users.username _) = "username"
column (Users.password _) = "password"
column (Users.role _) = "role"
column (Users.customer_id _) = "customer_id"

abbrev role_names : List (String × Role)
role_names = ("ADMIN", admin) ∷ ("USER", user) ∷ []

abbrev pub columns : List (String × (Value → Option Assignment))
columns =
    ("username", λ v. Option.map Users.username (as_text v))
    ∷ ("password", λ v. Option.map Users.password (as_text v))
    ∷ ("role", λ v. Option.map Users.role (as_named role_names v))
    ∷ ("customer_id", λ v. Option.map Users.customer_id (as_optional as_text v))
    ∷ []

pub column-apart : (a : Assignment) → str_eq (column a) "user_id" ≡ false
unfolding column str_eq
column-apart (Users.username _) = refl
column-apart _ = refl

pub columns-IsRead : All (IsRead (read_entry columns) column) user_update_schema
unfolding column str_eq
columns-IsRead = (
  strict-IsRead (read_entry columns) column _ as_text Users.username string-IsReadable refl refl
      (λ v. refl) (λ b. refl),
  (
    strict-IsRead (read_entry columns) column _ as_text Users.password string-IsReadable refl refl
        (λ v. refl) (λ b. refl),
    (
      named-IsRead (read_entry columns) column _ role_names Users.role refl refl refl refl
          (λ v. refl) (λ b. refl),
      (
        optional-IsRead (read_entry columns) column _ as_text Users.customer_id string-IsReadable
            refl (λ v. refl) (λ b. refl),
        tt,
      ),
    ),
  ),
)
