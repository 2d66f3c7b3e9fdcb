-- ===== src/Api/Schemas/Columns/CreditScores.antt =====
-- The columns that `update` of app/repositories/credit_scores.py sets for a body of the blueprint.
use mathlib.Core.Option
use corebank_api.Repositories.CreditScores.{Assignment}
use corebank_api.Repositories.CreditScores
use corebank_api.Api.Schemas.CreditScores.{credit_score_update_schema}
use corebank_api.Api.Schemas.{Value}
use corebank_api.Api.Schemas.Updates.{read_entry, IsRead, strict-IsRead}
use corebank_api.Api.Schemas.Values.{
  as_text, as_hundredths, as_truth, string-IsReadable, decimal-IsReadable, boolean-IsReadable,
}
use corebank_api.Prelude.{String, List, [], ◌∷◌, Option, ◌≡◌, All, refl, str_eq, false}

-- `col` in the text of the statement
unfoldable pub column : Assignment → String
column (CreditScores.score _) = "score"
column (CreditScores.risk_category _) = "risk_category"
column (CreditScores.computed_by_system _) = "computed_by_system"

abbrev pub columns : List (String × (Value → Option Assignment))
columns =
    ("score", λ v. Option.map CreditScores.score (as_hundredths v))
    ∷ ("risk_category", λ v. Option.map CreditScores.risk_category (as_text v))
    ∷ ("computed_by_system", λ v. Option.map CreditScores.computed_by_system (as_truth v))
    ∷ []

pub column-apart : (a : Assignment) → str_eq (column a) "credit_score_id" ≡ false
unfolding column str_eq
column-apart (CreditScores.score _) = refl
column-apart _ = refl

pub columns-IsRead : All (IsRead (read_entry columns) column) credit_score_update_schema
unfolding column str_eq
columns-IsRead = (
  strict-IsRead (read_entry columns) column _ as_hundredths CreditScores.score decimal-IsReadable
      refl refl (λ v. refl) (λ b. refl),
  (
    strict-IsRead (read_entry columns) column _ as_text CreditScores.risk_category string-IsReadable
        refl refl (λ v. refl) (λ b. refl),
    (
      strict-IsRead (read_entry columns) column _ as_truth CreditScores.computed_by_system
          boolean-IsReadable refl refl (λ v. refl) (λ b. refl),
      tt,
    ),
  ),
)
