-- ===== src/Repositories/Employees.antt =====
-- app/repositories/employees.py
use corebank_api.Prelude.{true, Option, List, String, ℕ}
use corebank_api.Database.Engine.{Engine}
use corebank_api.Database.Schema.{Employee}
use corebank_api.Database.Statement.{
  has_key, fetch_one, execute_assignments, fetch_all, execute_delete, execute_insert, Stmt,
}
use corebank_api.Database.Tables.{employees_table}

-- A column that `fields` may name, and its new value.
pub data Assignment : Type 0 where
  branch_id : String → Assignment
  first_name : String → Assignment
  last_name : String → Assignment
  position : String → Assignment
  hire_date : ℕ → Assignment
  phone_number : String → Assignment
  email : String → Assignment

unfoldable pub set_column : Assignment → Employee → Employee
set_column (branch_id v) r = record r { branch_id = v }
set_column (first_name v) r = record r { first_name = v }
set_column (last_name v) r = record r { last_name = v }
set_column (position v) r = record r { position = v }
set_column (hire_date v) r = record r { hire_date = v }
set_column (phone_number v) r = record r { phone_number = v }
set_column (email v) r = record r { email = v }

module _ ⦃e : Engine⦄ where
  unfoldable pub insert : Employee → Stmt (Unit {0})
  insert row = execute_insert employees_table row

  unfoldable pub list_all : Stmt (List Employee)
  unfolding employees_table
  list_all = fetch_all employees_table (λ _. true)

  unfoldable pub get : String → Stmt (Option Employee)
  unfolding employees_table
  get employee_id = fetch_one employees_table (has_key employees_table employee_id)

  unfoldable pub update : String → List Assignment → Stmt ℕ
  unfolding set_column
  update employee_id fields = execute_assignments employees_table set_column employee_id fields

  unfoldable pub delete : String → Stmt ℕ
  delete employee_id = execute_delete employees_table employee_id
