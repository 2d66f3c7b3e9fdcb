-- ===== src/Api/Schemas/LoanPayments.antt =====
-- The schemas of app/api/loan_payments.py.
use corebank_api.Api.Schemas.{
  Schema, null, string, date_time, above_zero, field, money, required, dump_only, allow_none,
  validate, load_default,
}
use corebank_api.Prelude.{[], ◌∷◌}

abbrev pub loan_payment_schema : Schema
loan_payment_schema =
    dump_only (field string "loan_payment_id")
    ∷ required (field string "loan_id")
    ∷ field date_time "payment_date"
    ∷ validate (above_zero ∷ []) (required (money "payment_amount"))
    ∷ allow_none (money "remaining_balance")
    ∷ []

abbrev pub loan_payment_create_schema : Schema
loan_payment_create_schema =
    required (field string "loan_id")
    ∷ validate (above_zero ∷ []) (required (money "payment_amount"))
    ∷ load_default null (allow_none (money "remaining_balance"))
    ∷ load_default null (field date_time "payment_date")
    ∷ []
