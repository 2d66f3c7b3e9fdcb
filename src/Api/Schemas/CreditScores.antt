-- ===== src/Api/Schemas/CreditScores.antt =====
-- The schemas of app/api/credit_scores.py.
use corebank_api.Api.Schemas.{
  Schema, truth, string, decimal, boolean, longest, field, required, dump_only, validate,
  load_default,
}
use corebank_api.Prelude.{[], ◌∷◌, true}

abbrev pub credit_score_schema : Schema
credit_score_schema =
    dump_only (field string "credit_score_id")
    ∷ required (field string "customer_id")
    ∷ required (field decimal "score")
    ∷ validate (longest 50 ∷ []) (required (field string "risk_category"))
    ∷ load_default (truth true) (field boolean "computed_by_system")
    ∷ []

abbrev pub credit_score_update_schema : Schema
credit_score_update_schema =
    field decimal "score"
    ∷ validate (longest 50 ∷ []) (field string "risk_category")
    ∷ field boolean "computed_by_system"
    ∷ []
