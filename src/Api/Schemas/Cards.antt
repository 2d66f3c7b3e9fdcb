-- ===== src/Api/Schemas/Cards.antt =====
-- The schemas of app/api/cards.py.
use corebank_api.Api.Schemas.{
  Schema, text, string, date, longest, shortest, exact, one_of, field, required, dump_only,
  load_only, validate, load_default,
}
use corebank_api.Prelude.{List, [], ◌∷◌, String}

abbrev pub card_types : List String
card_types = "DEBIT" ∷ "CREDIT" ∷ []

abbrev pub card_statuses : List String
card_statuses = "ACTIVE" ∷ "BLOCKED" ∷ "EXPIRED" ∷ []

abbrev pub card_schema : Schema
card_schema =
    dump_only (field string "card_id")
    ∷ required (field string "account_id")
    ∷ validate (one_of card_types ∷ []) (field string "card_type")
    ∷ dump_only (field string "card_number")
    ∷ field date "expiration_date"
    ∷ validate (one_of card_statuses ∷ []) (field string "status")
    ∷ []

abbrev pub card_create_schema : Schema
card_create_schema =
    required (field string "account_id")
    ∷ validate (one_of card_types ∷ []) (required (field string "card_type"))
    ∷ validate (exact 16 ∷ []) (load_only (required (field string "card_number")))
    ∷ required (field date "expiration_date")
    ∷ validate (shortest 3 ∷ longest 3 ∷ []) (load_only (required (field string "cvv")))
    ∷ validate (one_of card_statuses ∷ []) (load_default (text "ACTIVE") (field string "status"))
    ∷ []

abbrev pub card_status_schema : Schema
card_status_schema = validate (one_of card_statuses ∷ []) (required (field string "status")) ∷ []
