-- ===== src/Api/Schemas/Loans.antt =====
-- The schemas of app/api/loans.py.
use corebank_api.Api.Schemas.{
  Schema, text, string, decimal, date, one_of, above_zero, field, money, required, dump_only,
  validate, load_default,
}
use corebank_api.Prelude.{List, [], ◌∷◌, String}

abbrev pub loan_types : List String
loan_types = "HOME" ∷ "AUTO" ∷ "PERSONAL" ∷ []

abbrev pub loan_statuses : List String
loan_statuses = "ACTIVE" ∷ "PAID_OFF" ∷ "DEFAULT" ∷ []

abbrev pub loan_schema : Schema
loan_schema =
    dump_only (field string "loan_id")
    ∷ required (field string "customer_id")
    ∷ validate (one_of loan_types ∷ []) (required (field string "loan_type"))
    ∷ validate (above_zero ∷ []) (required (money "principal_amount"))
    ∷ required (field decimal "interest_rate")
    ∷ required (field date "start_date")
    ∷ required (field date "end_date")
    ∷ validate (one_of loan_statuses ∷ []) (load_default (text "ACTIVE") (field string "status"))
    ∷ []

abbrev pub loan_status_schema : Schema
loan_status_schema = validate (one_of loan_statuses ∷ []) (required (field string "status")) ∷ []
