-- ===== src/Api/Schemas/Columns/Customers.antt =====
-- The columns that `update` of app/repositories/customers.py sets for a body of the blueprint.
use mathlib.Core.Option
use corebank_api.Repositories.Customers.{Assignment}
use corebank_api.Repositories.Customers
use corebank_api.Api.Schemas.Customers.{customer_update_schema}
use corebank_api.Api.Schemas.{Value}
use corebank_api.Api.Schemas.Updates.{read_entry, IsRead, strict-IsRead, optional-IsRead}
use corebank_api.Api.Schemas.Values.{
  as_text, as_optional, as_hundredths, string-IsReadable, email-IsReadable, decimal-IsReadable,
}
use corebank_api.Prelude.{String, List, [], ◌∷◌, Option, ◌≡◌, All, refl, str_eq, false}

-- `col` in the text of the statement
unfoldable pub column : Assignment → String
column (Customers.first_name _) = "first_name"
column (Customers.last_name _) = "last_name"
column (Customers.phone_number _) = "phone_number"
column (Customers.email _) = "email"
column (Customers.address_line1 _) = "address_line1"
column (Customers.address_line2 _) = "address_line2"
column (Customers.city _) = "city"
column (Customers.zip_code _) = "zip_code"
column (Customers.wage_declaration _) = "wage_declaration"

abbrev pub columns : List (String × (Value → Option Assignment))
columns =
    ("first_name", λ v. Option.map Customers.first_name (as_text v))
    ∷ ("last_name", λ v. Option.map Customers.last_name (as_text v))
    ∷ ("phone_number", λ v. Option.map Customers.phone_number (as_text v))
    ∷ ("email", λ v. Option.map Customers.email (as_text v))
    ∷ ("address_line1", λ v. Option.map Customers.address_line1 (as_text v))
    ∷ ("address_line2", λ v. Option.map Customers.address_line2 (as_optional as_text v))
    ∷ ("city", λ v. Option.map Customers.city (as_text v))
    ∷ ("zip_code", λ v. Option.map Customers.zip_code (as_text v))
    ∷ ("wage_declaration", λ v. Option.map Customers.wage_declaration (as_hundredths v))
    ∷ []

pub column-apart : (a : Assignment) → str_eq (column a) "customer_id" ≡ false
unfolding column str_eq
column-apart (Customers.first_name _) = refl
column-apart _ = refl

pub columns-IsRead : All (IsRead (read_entry columns) column) customer_update_schema
unfolding column str_eq
columns-IsRead = (
  strict-IsRead (read_entry columns) column _ as_text Customers.first_name string-IsReadable refl
      refl (λ v. refl) (λ b. refl),
  (
    strict-IsRead (read_entry columns) column _ as_text Customers.last_name string-IsReadable refl
        refl (λ v. refl) (λ b. refl),
    (
      strict-IsRead (read_entry columns) column _ as_text Customers.phone_number string-IsReadable
          refl refl (λ v. refl) (λ b. refl),
      (
        strict-IsRead (read_entry columns) column _ as_text Customers.email email-IsReadable refl
            refl (λ v. refl) (λ b. refl),
        (
          strict-IsRead (read_entry columns) column _ as_text Customers.address_line1
              string-IsReadable refl refl (λ v. refl) (λ b. refl),
          (
            optional-IsRead (read_entry columns) column _ as_text Customers.address_line2
                string-IsReadable refl (λ v. refl) (λ b. refl),
            (
              strict-IsRead (read_entry columns) column _ as_text Customers.city string-IsReadable
                  refl refl (λ v. refl) (λ b. refl),
              (
                strict-IsRead (read_entry columns) column _ as_text Customers.zip_code
                    string-IsReadable refl refl (λ v. refl) (λ b. refl),
                (
                  strict-IsRead (read_entry columns) column _ as_hundredths
                      Customers.wage_declaration decimal-IsReadable refl refl (λ v. refl)
                      (λ b. refl),
                  tt,
                ),
              ),
            ),
          ),
        ),
      ),
    ),
  ),
)
