-- ===== src/Api/Schemas/Transactions.antt =====
-- The schemas of app/api/transactions.py.
use corebank_api.Api.Schemas.{
  Schema, string, date_time, one_of, above_zero, field, money, required, dump_only, allow_none,
  validate,
}
use corebank_api.Prelude.{List, [], ◌∷◌, String}

abbrev pub txn_types : List String
txn_types = "DEPOSIT" ∷ "WITHDRAWAL" ∷ "TRANSFER" ∷ []

abbrev pub transaction_schema : Schema
transaction_schema =
    dump_only (field string "transaction_id")
    ∷ required (field string "from_account_id")
    ∷ allow_none (field string "to_account_id")
    ∷ validate (one_of txn_types ∷ []) (field string "transaction_type")
    ∷ required (money "amount")
    ∷ dump_only (field date_time "transaction_timestamp")
    ∷ []

abbrev pub transfer_schema : Schema
transfer_schema =
    required (field string "sender_account_id")
    ∷ required (field string "receiver_account_id")
    ∷ validate (above_zero ∷ []) (required (money "amount"))
    ∷ []

abbrev pub high_value_schema : Schema
high_value_schema =
    field string "customer_id"
    ∷ field string "first_name"
    ∷ field string "last_name"
    ∷ money "total_transaction"
    ∷ []
