-- ===== src/Services/Branch.antt =====
-- app/services/branch_service.py
pub mod RoundTrip
use corebank_api.Repositories.Branches
use corebank_api.Prelude.{List, Option, String, ℕ}
use corebank_api.Database.Engine.{Engine}
use corebank_api.Database.Uow.{integrity_guard, after, read_only, unit_of_work, Action}
use corebank_api.Database.Schema.{Branch}
use corebank_api.Database.Statement.{pure, require_row, ◌>>◌, ◌>>=◌, value_or}
use corebank_api.Errors.{not_found, app}

-- The `data` of `create`.
pub record NewBranch : Type 0 where
  pub branch_name : String
  pub address_line1 : String
  pub address_line2 : Option String
  pub city : String
  pub zip_code : String
  pub phone_number : String

-- The `record` of `create`.
unfoldable pub new_record : NewBranch → String → Branch
new_record new_row id = record {
  branch_id = id;
  branch_name = new_row.branch_name;
  address_line1 = new_row.address_line1;
  address_line2 = new_row.address_line2;
  city = new_row.city;
  zip_code = new_row.zip_code;
  phone_number = new_row.phone_number;
}

module _ ⦃e : Engine⦄ where
  unfoldable pub create : NewBranch → String → Action Branch
  create new_row id =
      unit_of_work
        (integrity_guard do Branches.insert (new_record new_row id); pure (new_record new_row id))

  unfoldable pub list_all : Action (List Branch)
  list_all = read_only Branches.list_all

  unfoldable pub get : String → Action Branch
  get branch_id =
      after (read_only (Branches.get branch_id))
        λ found. value_or found (app not_found "Branch not found")

  unfoldable pub update : String → List Branches.Assignment → Action (Option Branch)
  update branch_id fields = unit_of_work (
      integrity_guard do
        written ← Branches.update branch_id fields
        require_row written (app not_found "Branch not found")
        Branches.get branch_id)

  unfoldable pub delete : String → Action (Unit {0})
  delete branch_id = unit_of_work (
      integrity_guard
        do gone ← Branches.delete branch_id; require_row gone (app not_found "Branch not found"))

  unfoldable pub with_conditions : ℕ → ℕ → Action (List Branches.BranchConditions)
  with_conditions min_employees min_accounts =
      read_only (Branches.with_conditions min_employees min_accounts)
