-- ===== src/Api/Schemas/Auth.antt =====
-- The schemas of app/api/auth.py.
use corebank_api.Api.Schemas.{Schema, string, field, required, load_only, allow_none}
use corebank_api.Prelude.{[], ◌∷◌}

abbrev pub login_schema : Schema
login_schema =
    required (field string "username") ∷ load_only (required (field string "password")) ∷ []

abbrev pub token_schema : Schema
token_schema = field string "access_token" ∷ field string "token_type" ∷ []

abbrev pub identity_schema : Schema
identity_schema =
    field string "user_id" ∷ field string "role" ∷ allow_none (field string "customer_id") ∷ []
