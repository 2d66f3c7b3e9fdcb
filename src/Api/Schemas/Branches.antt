-- ===== src/Api/Schemas/Branches.antt =====
-- The schemas of app/api/branches.py.
use corebank_api.Api.Schemas.{
  Schema, number, string, integer, longest, from_zero, field, required, dump_only, allow_none,
  validate, load_default,
}
use corebank_api.Prelude.{[], ◌∷◌, pos}

abbrev pub branch_schema : Schema
branch_schema =
    dump_only (field string "branch_id")
    ∷ required (field string "branch_name")
    ∷ required (field string "address_line1")
    ∷ allow_none (field string "address_line2")
    ∷ required (field string "city")
    ∷ required (field string "zip_code")
    ∷ validate (longest 15 ∷ []) (required (field string "phone_number"))
    ∷ []

abbrev pub branch_update_schema : Schema
branch_update_schema =
    field string "branch_name"
    ∷ field string "address_line1"
    ∷ allow_none (field string "address_line2")
    ∷ field string "city"
    ∷ field string "zip_code"
    ∷ validate (longest 15 ∷ []) (field string "phone_number")
    ∷ []

abbrev pub branch_conditions_args : Schema
branch_conditions_args =
    validate (from_zero ∷ []) (load_default (number (pos 5)) (field integer "min_employees"))
    ∷ validate (from_zero ∷ []) (load_default (number (pos 3)) (field integer "min_accounts"))
    ∷ []

abbrev pub branch_conditions_result : Schema
branch_conditions_result =
    field string "branch_name" ∷ field integer "employee_count" ∷ field integer "account_count" ∷ []
