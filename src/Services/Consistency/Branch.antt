-- ===== src/Services/Consistency/Branch.antt =====
-- app/repositories/branches.py and app/services/branch_service.py keep the database consistent.
use corebank_api.Repositories.Branches
use corebank_api.Services.Branch
use corebank_api.Database.Consistency.Keeps.{
  Keeps, Serves, Keeps-insert, Keeps-assignments, Keeps-delete, Serves-read,
}
use corebank_api.Database.Consistency.Blocks.{serves_rules}
use corebank_api.Database.Consistency.Wholes.{branches-Whole}
use corebank_api.Database.Tables.{branches_table}
use corebank_api.Database.Engine.{Engine}
use corebank_api.Database.Schema.{Branch}
use corebank_api.Prelude.{arith, ◌≡◌, List, String, ℕ}

module _ ⦃e : Engine⦄ where
  insert-Keeps : (row : Branch) → Keeps (Branches.insert row)
  unfolding Branches.insert
  insert-Keeps row = Keeps-insert branches_table branches-Whole row

  delete-Keeps : (id : String) → Keeps (Branches.delete id)
  unfolding Branches.delete
  delete-Keeps id = Keeps-delete branches_table branches-Whole id

  update-Keeps :
      (id : String) (fields : List Branches.Assignment) → Keeps (Branches.update id fields)
  unfolding Branches.update Branches.set_column branches_table
  update-Keeps id fields =
      Keeps-assignments branches_table branches-Whole Branches.set_column id fields stable
    where
      stable :
          (c : Branches.Assignment) (x : Branch)
          → branches_table.key (Branches.set_column c x) ≡ branches_table.key x
      stable c x = ground arith

  pub create-Serves : (new_row : Branch.NewBranch) (id : String) → Serves (Branch.create new_row id)
  unfolding Branch.create
  create-Serves new_row id = search (serves_rules, insert-Keeps)

  pub update-Serves :
      (id : String) (fields : List Branches.Assignment) → Serves (Branch.update id fields)
  unfolding Branch.update Branches.get
  update-Serves id fields = search (serves_rules, update-Keeps)

  pub delete-Serves : (id : String) → Serves (Branch.delete id)
  unfolding Branch.delete
  delete-Serves id = search (serves_rules, delete-Keeps)

  pub list_all-Serves : Serves (Branch.list_all)
  unfolding Branch.list_all
  list_all-Serves = Serves-read Branches.list_all

  pub get-Serves : (id : String) → Serves (Branch.get id)
  unfolding Branch.get
  get-Serves id = search serves_rules

  pub with_conditions-Serves : (m n : ℕ) → Serves (Branch.with_conditions m n)
  unfolding Branch.with_conditions
  with_conditions-Serves m n = Serves-read (Branches.with_conditions m n)

-- Every operation of the service keeps the database consistent.
pub ruleset branch_consistent = (
  create-Serves, update-Serves, delete-Serves, list_all-Serves, get-Serves, with_conditions-Serves,
)
