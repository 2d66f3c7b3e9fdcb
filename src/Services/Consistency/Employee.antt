-- ===== src/Services/Consistency/Employee.antt =====
-- app/repositories/employees.py and app/services/employee_service.py keep the database consistent.
use corebank_api.Repositories.Employees
use corebank_api.Services.Employee
use corebank_api.Database.Consistency.Keeps.{
  Keeps, Serves, Keeps-insert, Keeps-assignments, Keeps-delete, Serves-read,
}
use corebank_api.Database.Consistency.Blocks.{serves_rules}
use corebank_api.Database.Consistency.Wholes.{employees-Whole}
use corebank_api.Database.Tables.{employees_table}
use corebank_api.Database.Engine.{Engine}
use corebank_api.Database.Schema.{Employee}
use corebank_api.Prelude.{arith, ◌≡◌, List, String}

module _ ⦃e : Engine⦄ where
  insert-Keeps : (row : Employee) → Keeps (Employees.insert row)
  unfolding Employees.insert
  insert-Keeps row = Keeps-insert employees_table employees-Whole row

  delete-Keeps : (id : String) → Keeps (Employees.delete id)
  unfolding Employees.delete
  delete-Keeps id = Keeps-delete employees_table employees-Whole id

  update-Keeps :
      (id : String) (fields : List Employees.Assignment) → Keeps (Employees.update id fields)
  unfolding Employees.update Employees.set_column employees_table
  update-Keeps id fields =
      Keeps-assignments employees_table employees-Whole Employees.set_column id fields stable
    where
      stable :
          (c : Employees.Assignment) (x : Employee)
          → employees_table.key (Employees.set_column c x) ≡ employees_table.key x
      stable c x = ground arith

  pub create-Serves :
      (new_row : Employee.NewEmployee) (id : String) → Serves (Employee.create new_row id)
  unfolding Employee.create
  create-Serves new_row id = search (serves_rules, insert-Keeps)

  pub update-Serves :
      (id : String) (fields : List Employees.Assignment) → Serves (Employee.update id fields)
  unfolding Employee.update Employees.get
  update-Serves id fields = search (serves_rules, update-Keeps)

  pub delete-Serves : (id : String) → Serves (Employee.delete id)
  unfolding Employee.delete
  delete-Serves id = search (serves_rules, delete-Keeps)

  pub list_all-Serves : Serves (Employee.list_all)
  unfolding Employee.list_all
  list_all-Serves = Serves-read Employees.list_all

  pub get-Serves : (id : String) → Serves (Employee.get id)
  unfolding Employee.get
  get-Serves id = search serves_rules

-- Every operation of the service keeps the database consistent.
pub ruleset employee_consistent =
    (create-Serves, update-Serves, delete-Serves, list_all-Serves, get-Serves)
