-- ===== src/Api/Schemas/Columns/Employees.antt =====
-- The columns that `update` of app/repositories/employees.py sets for a body of the blueprint.
use mathlib.Core.Option
use corebank_api.Repositories.Employees.{Assignment}
use corebank_api.Repositories.Employees
use corebank_api.Api.Schemas.Employees.{employee_update_schema}
use corebank_api.Api.Schemas.{Value}
use corebank_api.Api.Schemas.Updates.{read_entry, IsRead, strict-IsRead}
use corebank_api.Api.Schemas.Values.{
  as_text, as_moment, string-IsReadable, email-IsReadable, date_time-IsReadable,
}
use corebank_api.Prelude.{String, List, [], ◌∷◌, Option, ◌≡◌, All, refl, str_eq, false}

-- `col` in the text of the statement
unfoldable pub column : Assignment → String
column (Employees.branch_id _) = "branch_id"
column (Employees.first_name _) = "first_name"
column (Employees.last_name _) = "last_name"
column (Employees.position _) = "position"
column (Employees.hire_date _) = "hire_date"
column (Employees.phone_number _) = "phone_number"
column (Employees.email _) = "email"

abbrev pub columns : List (String × (Value → Option Assignment))
columns =
    ("branch_id", λ v. Option.map Employees.branch_id (as_text v))
    ∷ ("first_name", λ v. Option.map Employees.first_name (as_text v))
    ∷ ("last_name", λ v. Option.map Employees.last_name (as_text v))
    ∷ ("position", λ v. Option.map Employees.position (as_text v))
    ∷ ("hire_date", λ v. Option.map Employees.hire_date (as_moment v))
    ∷ ("phone_number", λ v. Option.map Employees.phone_number (as_text v))
    ∷ ("email", λ v. Option.map Employees.email (as_text v))
    ∷ []

pub column-apart : (a : Assignment) → str_eq (column a) "employee_id" ≡ false
unfolding column str_eq
column-apart (Employees.branch_id _) = refl
column-apart _ = refl

pub columns-IsRead : All (IsRead (read_entry columns) column) employee_update_schema
unfolding column str_eq
columns-IsRead = (
  strict-IsRead (read_entry columns) column _ as_text Employees.branch_id string-IsReadable refl
      refl (λ v. refl) (λ b. refl),
  (
    strict-IsRead (read_entry columns) column _ as_text Employees.first_name string-IsReadable refl
        refl (λ v. refl) (λ b. refl),
    (
      strict-IsRead (read_entry columns) column _ as_text Employees.last_name string-IsReadable refl
          refl (λ v. refl) (λ b. refl),
      (
        strict-IsRead (read_entry columns) column _ as_text Employees.position string-IsReadable
            refl refl (λ v. refl) (λ b. refl),
        (
          strict-IsRead (read_entry columns) column _ as_moment Employees.hire_date
              date_time-IsReadable refl refl (λ v. refl) (λ b. refl),
          (
            strict-IsRead (read_entry columns) column _ as_text Employees.phone_number
                string-IsReadable refl refl (λ v. refl) (λ b. refl),
            (
              strict-IsRead (read_entry columns) column _ as_text Employees.email email-IsReadable
                  refl refl (λ v. refl) (λ b. refl),
              tt,
            ),
          ),
        ),
      ),
    ),
  ),
)
