-- ===== src/Services/Consistency/CreditScore.antt =====
-- app/repositories/credit_scores.py and app/services/credit_score_service.py keep the database consistent.
use corebank_api.Repositories.CreditScores
use corebank_api.Services.CreditScore
use corebank_api.Database.Consistency.Keeps.{
  Keeps, Serves, Keeps-insert, Keeps-assignments, Keeps-delete, Serves-read,
}
use corebank_api.Database.Consistency.Blocks.{serves_rules}
use corebank_api.Database.Consistency.Leaves.{credit_scores-Whole}
use corebank_api.Database.Tables.{credit_scores_table}
use corebank_api.Database.Engine.{Engine}
use corebank_api.Database.Schema.{CreditScore}
use corebank_api.Prelude.{arith, ◌≡◌, List, String}
use corebank_api.Services.Helpers.{Actor}

module _ ⦃e : Engine⦄ where
  insert-Keeps : (row : CreditScore) → Keeps (CreditScores.insert row)
  unfolding CreditScores.insert
  insert-Keeps row = Keeps-insert credit_scores_table credit_scores-Whole row

  delete-Keeps : (id : String) → Keeps (CreditScores.delete id)
  unfolding CreditScores.delete
  delete-Keeps id = Keeps-delete credit_scores_table credit_scores-Whole id

  update-Keeps :
      (id : String) (fields : List CreditScores.Assignment) → Keeps (CreditScores.update id fields)
  unfolding CreditScores.update CreditScores.set_column credit_scores_table
  update-Keeps id fields =
      Keeps-assignments credit_scores_table credit_scores-Whole CreditScores.set_column id fields
        stable
    where
      stable :
          (c : CreditScores.Assignment) (x : CreditScore)
          → credit_scores_table.key (CreditScores.set_column c x) ≡ credit_scores_table.key x
      stable c x = ground arith

  pub create-Serves :
      (new_row : CreditScore.NewCreditScore) (id : String) → Serves (CreditScore.create new_row id)
  unfolding CreditScore.create
  create-Serves new_row id = search (serves_rules, insert-Keeps)

  pub update-Serves :
      (id : String) (fields : List CreditScores.Assignment) → Serves (CreditScore.update id fields)
  unfolding CreditScore.update CreditScores.get
  update-Serves id fields = search (serves_rules, update-Keeps)

  pub delete-Serves : (id : String) → Serves (CreditScore.delete id)
  unfolding CreditScore.delete
  delete-Serves id = search (serves_rules, delete-Keeps)

  pub list_all-Serves : Serves (CreditScore.list_all)
  unfolding CreditScore.list_all
  list_all-Serves = Serves-read CreditScores.list_all

  pub get-Serves : (id : String) (actor : Actor) → Serves (CreditScore.get id actor)
  unfolding CreditScore.get
  get-Serves id actor = search serves_rules

-- Every operation of the service keeps the database consistent.
pub ruleset credit_score_consistent =
    (create-Serves, update-Serves, delete-Serves, list_all-Serves, get-Serves)
