-- ===== src/Api/Schemas/Created.antt =====
-- The `record` that `create` of each service of app/services makes of the loaded dict, and the names of
-- the parameters in the INSERT of each repository.
use corebank_api.Api.Schemas.{null, text, truth, number, moment, Dict}
use corebank_api.Api.Schemas.Given.{setdefault, without_none}
use corebank_api.Prelude.{ℕ, String, true, List, [], ◌∷◌, ◌++◌, pos}

-- `{name: id, **data}` for the loaded `data`. Of two entries of one key the first one counts for
-- `lookup`, which is here, as in Python, the one of `data`.
abbrev with_key : String → String → Dict → Dict
with_key name id loaded = loaded ++ (name, text id) ∷ []

-- What `post` of app/api/loan_payments.py hands to `create`.
unfoldable pub payload : Dict → Dict
unfolding without_none
payload loaded = without_none loaded

-- The `record` of each `create`, with its calls of `setdefault`.
unfoldable pub branch_record : String → Dict → Dict
unfolding setdefault
branch_record id loaded = setdefault "address_line2" null (with_key "branch_id" id loaded)

unfoldable pub card_record : String → Dict → Dict
card_record id loaded = with_key "card_id" id loaded

unfoldable pub credit_score_record : String → Dict → Dict
unfolding setdefault
credit_score_record id loaded =
    setdefault "computed_by_system" (truth true) (with_key "credit_score_id" id loaded)

unfoldable pub customer_record : String → Dict → Dict
unfolding setdefault
customer_record id loaded =
    setdefault "wage_declaration" (number (pos 0))
      (setdefault "address_line2" null (with_key "customer_id" id loaded))

unfoldable pub employee_record : String → Dict → Dict
employee_record id loaded = with_key "employee_id" id loaded

unfoldable pub loan_record : String → Dict → Dict
unfolding setdefault
loan_record id loaded = setdefault "status" (text "ACTIVE") (with_key "loan_id" id loaded)

unfoldable pub loan_payment_record : String → ℕ → Dict → Dict
unfolding setdefault
loan_payment_record id now loaded =
    setdefault "remaining_balance" null
      (setdefault "payment_date" (moment now) (with_key "loan_payment_id" id loaded))

-- The parameters of each INSERT, in their order.
abbrev pub branch_columns : List String
branch_columns =
    "branch_id" ∷ "branch_name" ∷ "address_line1" ∷ "address_line2" ∷ "city" ∷ "zip_code"
    ∷ "phone_number" ∷ []

abbrev pub card_columns : List String
card_columns =
    "card_id" ∷ "account_id" ∷ "card_type" ∷ "card_number" ∷ "expiration_date" ∷ "cvv" ∷ "status"
    ∷ []

abbrev pub credit_score_columns : List String
credit_score_columns =
    "credit_score_id" ∷ "customer_id" ∷ "score" ∷ "risk_category" ∷ "computed_by_system" ∷ []

abbrev pub customer_columns : List String
customer_columns =
    "customer_id" ∷ "first_name" ∷ "last_name" ∷ "date_of_birth" ∷ "phone_number" ∷ "email"
    ∷ "address_line1" ∷ "address_line2" ∷ "city" ∷ "zip_code" ∷ "wage_declaration" ∷ []

abbrev pub employee_columns : List String
employee_columns =
    "employee_id" ∷ "branch_id" ∷ "first_name" ∷ "last_name" ∷ "position" ∷ "hire_date"
    ∷ "phone_number" ∷ "email" ∷ []

abbrev pub loan_columns : List String
loan_columns =
    "loan_id" ∷ "customer_id" ∷ "loan_type" ∷ "principal_amount" ∷ "interest_rate" ∷ "start_date"
    ∷ "end_date" ∷ "status" ∷ []

abbrev pub loan_payment_columns : List String
loan_payment_columns =
    "loan_payment_id" ∷ "loan_id" ∷ "payment_date" ∷ "payment_amount" ∷ "remaining_balance" ∷ []
