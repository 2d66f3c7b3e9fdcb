-- ===== src/Api/Employees.antt =====
-- app/api/employees.py
use corebank_api.Prelude.{Option, List, String}
use corebank_api.Repositories.Employees
use corebank_api.Services.Employee
use corebank_api.Database.Engine.{Engine}
use corebank_api.Security.{some_fields, View, admin_required}
use corebank_api.Database.Schema.{Employee}

module _ ⦃e : Engine⦄ where
  unfoldable pub get_all : View (List Employee)
  unfolding admin_required
  get_all = admin_required 200 λ _. Employee.list_all

  unfoldable pub post : Employee.NewEmployee → String → View Employee
  unfolding admin_required
  post new_row id = admin_required 201 λ _. Employee.create new_row id

  unfoldable pub get : String → View Employee
  unfolding admin_required
  get id = admin_required 200 λ _. Employee.get id

  unfoldable pub put : String → List Employees.Assignment → View (Option Employee)
  unfolding admin_required
  put id fields = admin_required 200 λ _. some_fields fields (Employee.update id fields)

  unfoldable pub delete : String → View (Unit {0})
  unfolding admin_required
  delete id = admin_required 204 λ _. Employee.delete id
