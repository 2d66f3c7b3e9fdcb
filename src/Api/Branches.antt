-- ===== src/Api/Branches.antt =====
-- app/api/branches.py
use corebank_api.Prelude.{Option, List, ℕ, String}
use corebank_api.Repositories.Branches
use corebank_api.Services.Branch
use corebank_api.Database.Engine.{Engine}
use corebank_api.Security.{some_fields, View, admin_required}
use corebank_api.Repositories.Branches.{BranchConditions}
use corebank_api.Database.Schema.{Branch}

module _ ⦃e : Engine⦄ where
  unfoldable pub get_all : View (List Branch)
  unfolding admin_required
  get_all = admin_required 200 λ _. Branch.list_all

  unfoldable pub post : Branch.NewBranch → String → View Branch
  unfolding admin_required
  post new_row id = admin_required 201 λ _. Branch.create new_row id

  unfoldable pub get_conditions : ℕ → ℕ → View (List BranchConditions)
  unfolding admin_required
  get_conditions min_employees min_accounts =
      admin_required 200 λ _. Branch.with_conditions min_employees min_accounts

  unfoldable pub get : String → View Branch
  unfolding admin_required
  get id = admin_required 200 λ _. Branch.get id

  unfoldable pub put : String → List Branches.Assignment → View (Option Branch)
  unfolding admin_required
  put id fields = admin_required 200 λ _. some_fields fields (Branch.update id fields)

  unfoldable pub delete : String → View (Unit {0})
  unfolding admin_required
  delete id = admin_required 204 λ _. Branch.delete id
