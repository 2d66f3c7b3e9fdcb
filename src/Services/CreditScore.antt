-- ===== src/Services/CreditScore.antt =====
-- app/services/credit_score_service.py
use corebank_api.Repositories.CreditScores
use corebank_api.Prelude.{some, Bool, true, Option, List, ℤ, String}
use corebank_api.Database.Engine.{Engine}
use corebank_api.Database.Uow.{integrity_guard, and_then, after, read_only, unit_of_work, Action}
use corebank_api.Database.Schema.{CreditScore}
use corebank_api.Services.Helpers.{ensure_owner_or_admin, Actor}
use mathlib.Core.Option.{get_or}
use corebank_api.Database.Statement.{pure, require_row, ◌>>=◌, value_or, ◌>>◌}
use corebank_api.Errors.{ok, not_found, app}

-- The `data` of `create`.
pub record NewCreditScore : Type 0 where
  pub customer_id : String
  pub score : ℤ
  pub risk_category : String
  pub computed_by_system : Option Bool

-- The `record` of `create`.
unfoldable pub new_record : NewCreditScore → String → CreditScore
new_record new_row id = record {
  credit_score_id = id;
  customer_id = new_row.customer_id;
  score = new_row.score;
  risk_category = new_row.risk_category;
  computed_by_system = some (get_or new_row.computed_by_system true);
}

module _ ⦃e : Engine⦄ where
  unfoldable pub create : NewCreditScore → String → Action CreditScore
  create new_row id =
      unit_of_work (
        integrity_guard
          do CreditScores.insert (new_record new_row id); pure (new_record new_row id))

  unfoldable pub list_all : Action (List CreditScore)
  list_all = read_only CreditScores.list_all

  unfoldable pub get : String → Actor → Action CreditScore
  get credit_score_id actor = after (read_only (CreditScores.get credit_score_id)) λ found.
      and_then (value_or found (app not_found "Credit score not found"))
        λ row. and_then (ensure_owner_or_admin actor (some row.customer_id)) λ _. ok row

  unfoldable pub update : String → List CreditScores.Assignment → Action (Option CreditScore)
  update credit_score_id fields = unit_of_work (
      integrity_guard do
        written ← CreditScores.update credit_score_id fields
        require_row written (app not_found "Credit score not found")
        CreditScores.get credit_score_id)

  unfoldable pub delete : String → Action (Unit {0})
  delete credit_score_id = unit_of_work (
      integrity_guard do
        gone ← CreditScores.delete credit_score_id
        require_row gone (app not_found "Credit score not found"))
