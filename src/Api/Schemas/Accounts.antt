-- ===== src/Api/Schemas/Accounts.antt =====
-- The schemas of app/api/accounts.py.
use corebank_api.Api.Schemas.{
  Schema, string, date_time, one_of, field, money, required, dump_only, validate,
}
use corebank_api.Prelude.{List, [], ◌∷◌, String}

abbrev pub account_types : List String
account_types = "CHECKING" ∷ "SAVINGS" ∷ []

abbrev pub account_schema : Schema
account_schema =
    dump_only (field string "account_id")
    ∷ required (field string "customer_id")
    ∷ validate (one_of account_types ∷ []) (field string "account_type")
    ∷ dump_only (money "balance")
    ∷ dump_only (field date_time "creation_date")
    ∷ required (field string "branch_id")
    ∷ []

abbrev pub account_create_schema : Schema
account_create_schema =
    required (field string "customer_id")
    ∷ validate (one_of account_types ∷ []) (required (field string "account_type"))
    ∷ required (field string "branch_id")
    ∷ []

abbrev pub balance_update_schema : Schema
balance_update_schema = required (money "balance") ∷ []
