-- ===== src/Repositories/CreditScores.antt =====
-- app/repositories/credit_scores.py
use corebank_api.Prelude.{some, true, List, Bool, Option, String, ℤ, ℕ}
use corebank_api.Database.Engine.{Engine}
use corebank_api.Database.Schema.{CreditScore}
use corebank_api.Database.Statement.{
  has_key, fetch_all, fetch_one, execute_assignments, execute_delete, execute_insert, Stmt,
}
use corebank_api.Database.Tables.{credit_scores_table}

-- A column that `fields` may name, and its new value.
pub data Assignment : Type 0 where
  score : ℤ → Assignment
  risk_category : String → Assignment
  computed_by_system : Bool → Assignment

unfoldable pub set_column : Assignment → CreditScore → CreditScore
set_column (score v) r = record r { score = v }
set_column (risk_category v) r = record r { risk_category = v }
set_column (computed_by_system v) r = record r { computed_by_system = some v }

module _ ⦃e : Engine⦄ where
  unfoldable pub insert : CreditScore → Stmt (Unit {0})
  insert row = execute_insert credit_scores_table row

  unfoldable pub list_all : Stmt (List CreditScore)
  unfolding credit_scores_table
  list_all = fetch_all credit_scores_table (λ _. true)

  unfoldable pub get : String → Stmt (Option CreditScore)
  unfolding credit_scores_table
  get credit_score_id = fetch_one credit_scores_table (has_key credit_scores_table credit_score_id)

  unfoldable pub update : String → List Assignment → Stmt ℕ
  unfolding set_column
  update credit_score_id fields =
      execute_assignments credit_scores_table set_column credit_score_id fields

  unfoldable pub delete : String → Stmt ℕ
  delete credit_score_id = execute_delete credit_scores_table credit_score_id
