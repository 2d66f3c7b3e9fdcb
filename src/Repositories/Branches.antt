-- ===== src/Repositories/Branches.antt =====
-- app/repositories/branches.py
use corebank_api.Prelude.{
  leb, ◌+◌, ◌&&◌, ltb, if◌then◌else◌, [], true, some, ◌++◌, ◌∷◌, map, none, List, Option, String, ℕ,
}
use corebank_api.Database.Engine.{same, Engine}
use corebank_api.Database.Schema.{Account, Employee, Db, Branch}
use corebank_api.Database.Tables.{branches_table}
use corebank_api.Database.Constraints.{refers}
use corebank_api.Database.Statement.{
  has_key, fetch_one, execute_assignments, fetch_all, execute_delete, execute_insert, Stmt,
}
use corebank_api.Errors.{ok}
use corebank_api.Database.Rows.{exists, select}

-- A column that `fields` may name, and its new value.
pub data Assignment : Type 0 where
  branch_name : String → Assignment
  address_line1 : String → Assignment
  address_line2 : Option String → Assignment
  city : String → Assignment
  zip_code : String → Assignment
  phone_number : String → Assignment

unfoldable pub set_column : Assignment → Branch → Branch
set_column (branch_name v) r = record r { branch_name = v }
set_column (address_line1 v) r = record r { address_line1 = v }
set_column (address_line2 v) r = record r { address_line2 = v }
set_column (city v) r = record r { city = v }
set_column (zip_code v) r = record r { zip_code = v }
set_column (phone_number v) r = record r { phone_number = v }

-- A row of the branch-conditions report.
pub record BranchConditions : Type 0 where
  pub branch_name : String
  pub employee_count : ℕ
  pub account_count : ℕ

-- The side of a LEFT JOIN: one row of NULL where nothing matches.
abbrev pub or_null : List String → List (Option String)
or_null [] = none ∷ []
or_null (x ∷ xs) = map some (x ∷ xs)

abbrev pub pair_with : Option String → List (Option String) → List (Option String × Option String)
pair_with x ys = map (λ y. (x, y)) ys

abbrev pub pairs :
    List (Option String) → List (Option String) → List (Option String × Option String)
pairs [] ys = []
pairs (x ∷ xs) ys = pair_with x ys ++ pairs xs ys

module _ ⦃e : Engine⦄ where
  -- `COUNT(DISTINCT column)`, which passes over NULL
  unfoldable pub count_distinct : List (Option String) → ℕ
  count_distinct [] = 0
  count_distinct (none ∷ xs) = count_distinct xs
  count_distinct (some x ∷ xs) = (if exists (refers x) xs then 0 else 1) + count_distinct xs

module _ ⦃e : Engine⦄ where
  unfoldable pub insert : Branch → Stmt (Unit {0})
  insert row = execute_insert branches_table row

  unfoldable pub list_all : Stmt (List Branch)
  unfolding branches_table
  list_all = fetch_all branches_table (λ _. true)

  unfoldable pub get : String → Stmt (Option Branch)
  unfolding branches_table
  get branch_id = fetch_one branches_table (has_key branches_table branch_id)

  -- The rows that the LEFT JOINs give for one branch: every employee with every account, a missing
  -- side as NULL.
  unfoldable pub joined : Db → Branch → List (Option String × Option String)
  joined db b =
      pairs
        (or_null (
          map (λ (m : Employee). m.employee_id)
            (select (λ m. same m.branch_id b.branch_id) db.employees)))
        (or_null (
          map (λ (a : Account). a.account_id)
            (select (λ a. same a.branch_id b.branch_id) db.accounts)))

  unfoldable pub conditions_of : Db → Branch → BranchConditions
  unfolding joined
  conditions_of db b = record {
    branch_name = b.branch_name;
    employee_count = count_distinct (map (λ p. p.0) (joined db b));
    account_count = count_distinct (map (λ p. p.1) (joined db b));
  }

  -- one group for each branch, whose name is unique
  unfoldable pub with_conditions : ℕ → ℕ → Stmt (List BranchConditions)
  unfolding conditions_of
  with_conditions min_employees min_accounts s = (
    ok (
        select (λ c. ltb min_employees c.employee_count && leb min_accounts c.account_count)
          (map (conditions_of s.db) s.db.branches)),
    s,
  )

  unfoldable pub update : String → List Assignment → Stmt ℕ
  unfolding set_column
  update branch_id fields = execute_assignments branches_table set_column branch_id fields

  unfoldable pub delete : String → Stmt ℕ
  delete branch_id = execute_delete branches_table branch_id
