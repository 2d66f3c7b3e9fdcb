-- ===== src/Api/Customers.antt =====
-- app/api/customers.py
use corebank_api.Prelude.{Option, List, String}
use corebank_api.Repositories.Customers
use corebank_api.Services.Customer
use corebank_api.Database.Engine.{Engine}
use corebank_api.Security.{some_fields, View, jwt_required, admin_required}
use corebank_api.Database.Schema.{Customer}

module _ ⦃e : Engine⦄ where
  unfoldable pub get_all : View (List Customer)
  unfolding admin_required
  get_all = admin_required 200 λ _. Customer.list_all

  unfoldable pub post : Customer.NewCustomer → String → View Customer
  unfolding admin_required
  post new_row id = admin_required 201 λ _. Customer.create new_row id

  unfoldable pub get : String → View Customer
  unfolding jwt_required
  get id = jwt_required 200 λ actor. Customer.get id actor

  unfoldable pub put : String → List Customers.Assignment → View (Option Customer)
  unfolding jwt_required
  put id fields = jwt_required 200 λ actor. some_fields fields (Customer.update id fields actor)

  unfoldable pub delete : String → View (Unit {0})
  unfolding admin_required
  delete id = admin_required 204 λ _. Customer.delete id
