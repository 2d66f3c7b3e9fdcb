-- ===== src/Api/Schemas/Columns/Branches.antt =====
-- The columns that `update` of app/repositories/branches.py sets for a body of the blueprint.
use mathlib.Core.Option
use corebank_api.Repositories.Branches.{Assignment}
use corebank_api.Repositories.Branches
use corebank_api.Api.Schemas.Branches.{branch_update_schema}
use corebank_api.Api.Schemas.{Value}
use corebank_api.Api.Schemas.Updates.{read_entry, IsRead, strict-IsRead, optional-IsRead}
use corebank_api.Api.Schemas.Values.{as_text, as_optional, string-IsReadable}
use corebank_api.Prelude.{String, List, [], ◌∷◌, Option, ◌≡◌, All, refl, str_eq, false}

-- `col` in the text of the statement
unfoldable pub column : Assignment → String
column (Branches.branch_name _) = "branch_name"
column (Branches.address_line1 _) = "address_line1"
column (Branches.address_line2 _) = "address_line2"
column (Branches.city _) = "city"
column (Branches.zip_code _) = "zip_code"
column (Branches.phone_number _) = "phone_number"

abbrev pub columns : List (String × (Value → Option Assignment))
columns =
    ("branch_name", λ v. Option.map Branches.branch_name (as_text v))
    ∷ ("address_line1", λ v. Option.map Branches.address_line1 (as_text v))
    ∷ ("address_line2", λ v. Option.map Branches.address_line2 (as_optional as_text v))
    ∷ ("city", λ v. Option.map Branches.city (as_text v))
    ∷ ("zip_code", λ v. Option.map Branches.zip_code (as_text v))
    ∷ ("phone_number", λ v. Option.map Branches.phone_number (as_text v))
    ∷ []

pub column-apart : (a : Assignment) → str_eq (column a) "branch_id" ≡ false
unfolding column str_eq
column-apart (Branches.branch_name _) = refl
column-apart _ = refl

pub columns-IsRead : All (IsRead (read_entry columns) column) branch_update_schema
unfolding column str_eq
columns-IsRead = (
  strict-IsRead (read_entry columns) column _ as_text Branches.branch_name string-IsReadable refl
      refl (λ v. refl) (λ b. refl),
  (
    strict-IsRead (read_entry columns) column _ as_text Branches.address_line1 string-IsReadable
        refl refl (λ v. refl) (λ b. refl),
    (
      optional-IsRead (read_entry columns) column _ as_text Branches.address_line2 string-IsReadable
          refl (λ v. refl) (λ b. refl),
      (
        strict-IsRead (read_entry columns) column _ as_text Branches.city string-IsReadable refl
            refl (λ v. refl) (λ b. refl),
        (
          strict-IsRead (read_entry columns) column _ as_text Branches.zip_code string-IsReadable
              refl refl (λ v. refl) (λ b. refl),
          (
            strict-IsRead (read_entry columns) column _ as_text Branches.phone_number
                string-IsReadable refl refl (λ v. refl) (λ b. refl),
            tt,
          ),
        ),
      ),
    ),
  ),
)
