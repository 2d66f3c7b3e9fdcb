-- ===== src/Api/Schemas/Users.antt =====
-- The schemas of app/api/users.py.
use corebank_api.Api.Schemas.{
  Schema, null, text, string, longest, shortest, one_of, field, required, dump_only, load_only,
  allow_none, validate, load_default,
}
use corebank_api.Prelude.{List, [], ◌∷◌, String}

abbrev pub roles : List String
roles = "ADMIN" ∷ "USER" ∷ []

abbrev pub user_schema : Schema
user_schema =
    dump_only (field string "user_id")
    ∷ required (field string "username")
    ∷ validate (one_of roles ∷ []) (field string "role")
    ∷ allow_none (field string "customer_id")
    ∷ []

abbrev pub user_create_schema : Schema
user_create_schema =
    validate (shortest 3 ∷ longest 100 ∷ []) (required (field string "username"))
    ∷ validate (shortest 6 ∷ []) (load_only (required (field string "password")))
    ∷ validate (one_of roles ∷ []) (load_default (text "USER") (field string "role"))
    ∷ load_default null (allow_none (field string "customer_id"))
    ∷ []

abbrev pub user_update_schema : Schema
user_update_schema =
    validate (shortest 3 ∷ longest 100 ∷ []) (field string "username")
    ∷ validate (shortest 6 ∷ []) (load_only (field string "password"))
    ∷ validate (one_of roles ∷ []) (field string "role")
    ∷ allow_none (field string "customer_id")
    ∷ []
