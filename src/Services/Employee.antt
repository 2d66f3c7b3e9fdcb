-- ===== src/Services/Employee.antt =====
-- app/services/employee_service.py
use corebank_api.Repositories.Employees
use corebank_api.Prelude.{Option, List, String, ℕ}
use corebank_api.Database.Engine.{Engine}
use corebank_api.Database.Uow.{integrity_guard, unit_of_work, read_only, after, Action}
use corebank_api.Database.Schema.{Employee}
use corebank_api.Database.Statement.{pure, require_row, ◌>>◌, ◌>>=◌, value_or}
use corebank_api.Errors.{not_found, app}

-- The `data` of `create`.
pub record NewEmployee : Type 0 where
  pub branch_id : String
  pub first_name : String
  pub last_name : String
  pub position : String
  pub hire_date : ℕ
  pub phone_number : String
  pub email : String

-- The `record` of `create`.
unfoldable pub new_record : NewEmployee → String → Employee
new_record new_row id = record {
  employee_id = id;
  branch_id = new_row.branch_id;
  first_name = new_row.first_name;
  last_name = new_row.last_name;
  position = new_row.position;
  hire_date = new_row.hire_date;
  phone_number = new_row.phone_number;
  email = new_row.email;
}

module _ ⦃e : Engine⦄ where
  unfoldable pub create : NewEmployee → String → Action Employee
  create new_row id =
      unit_of_work
        (integrity_guard do Employees.insert (new_record new_row id); pure (new_record new_row id))

  unfoldable pub list_all : Action (List Employee)
  list_all = read_only Employees.list_all

  unfoldable pub get : String → Action Employee
  get employee_id =
      after (read_only (Employees.get employee_id))
        λ found. value_or found (app not_found "Employee not found")

  unfoldable pub update : String → List Employees.Assignment → Action (Option Employee)
  update employee_id fields = unit_of_work (
      integrity_guard do
        written ← Employees.update employee_id fields
        require_row written (app not_found "Employee not found")
        Employees.get employee_id)

  unfoldable pub delete : String → Action (Unit {0})
  delete employee_id = unit_of_work (
      integrity_guard do
        gone ← Employees.delete employee_id
        require_row gone (app not_found "Employee not found"))
