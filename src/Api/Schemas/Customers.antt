-- ===== src/Api/Schemas/Customers.antt =====
-- The schemas of app/api/customers.py.
use corebank_api.Api.Schemas.{
  Schema, string, email, date, longest, field, money, required, dump_only, allow_none, validate,
}
use corebank_api.Prelude.{[], ◌∷◌}

abbrev pub customer_schema : Schema
customer_schema =
    dump_only (field string "customer_id")
    ∷ required (field string "first_name")
    ∷ required (field string "last_name")
    ∷ required (field date "date_of_birth")
    ∷ validate (longest 15 ∷ []) (required (field string "phone_number"))
    ∷ required (field email "email")
    ∷ required (field string "address_line1")
    ∷ allow_none (field string "address_line2")
    ∷ required (field string "city")
    ∷ required (field string "zip_code")
    ∷ money "wage_declaration"
    ∷ []

abbrev pub customer_update_schema : Schema
customer_update_schema =
    field string "first_name"
    ∷ field string "last_name"
    ∷ validate (longest 15 ∷ []) (field string "phone_number")
    ∷ field email "email"
    ∷ field string "address_line1"
    ∷ allow_none (field string "address_line2")
    ∷ field string "city"
    ∷ field string "zip_code"
    ∷ money "wage_declaration"
    ∷ []
