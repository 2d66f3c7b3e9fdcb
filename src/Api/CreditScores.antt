-- ===== src/Api/CreditScores.antt =====
-- app/api/credit_scores.py
use corebank_api.Prelude.{Option, List, String}
use corebank_api.Repositories.CreditScores
use corebank_api.Services.CreditScore
use corebank_api.Database.Engine.{Engine}
use corebank_api.Security.{some_fields, View, admin_required, jwt_required}
use corebank_api.Database.Schema.{CreditScore}

module _ ⦃e : Engine⦄ where
  unfoldable pub get_all : View (List CreditScore)
  unfolding admin_required
  get_all = admin_required 200 λ _. CreditScore.list_all

  unfoldable pub post : CreditScore.NewCreditScore → String → View CreditScore
  unfolding admin_required
  post new_row id = admin_required 201 λ _. CreditScore.create new_row id

  unfoldable pub get : String → View CreditScore
  unfolding jwt_required
  get id = jwt_required 200 λ actor. CreditScore.get id actor

  unfoldable pub put : String → List CreditScores.Assignment → View (Option CreditScore)
  unfolding admin_required
  put id fields = admin_required 200 λ _. some_fields fields (CreditScore.update id fields)

  unfoldable pub delete : String → View (Unit {0})
  unfolding admin_required
  delete id = admin_required 204 λ _. CreditScore.delete id
