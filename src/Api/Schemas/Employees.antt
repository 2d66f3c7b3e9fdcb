-- ===== src/Api/Schemas/Employees.antt =====
-- The schemas of app/api/employees.py.
use corebank_api.Api.Schemas.{
  Schema, string, email, date_time, longest, field, required, dump_only, validate,
}
use corebank_api.Prelude.{[], ◌∷◌}

abbrev pub employee_schema : Schema
employee_schema =
    dump_only (field string "employee_id")
    ∷ required (field string "branch_id")
    ∷ required (field string "first_name")
    ∷ required (field string "last_name")
    ∷ required (field string "position")
    ∷ required (field date_time "hire_date")
    ∷ validate (longest 15 ∷ []) (required (field string "phone_number"))
    ∷ required (field email "email")
    ∷ []

abbrev pub employee_update_schema : Schema
employee_update_schema =
    field string "branch_id"
    ∷ field string "first_name"
    ∷ field string "last_name"
    ∷ field string "position"
    ∷ field date_time "hire_date"
    ∷ validate (longest 15 ∷ []) (field string "phone_number")
    ∷ field email "email"
    ∷ []
