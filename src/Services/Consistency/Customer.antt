-- ===== src/Services/Consistency/Customer.antt =====
-- app/repositories/customers.py and app/services/customer_service.py keep the database consistent.
use corebank_api.Repositories.Customers
use corebank_api.Services.Customer
use corebank_api.Database.Consistency.Keeps.{
  Keeps, Serves, Keeps-insert, Keeps-assignments, Keeps-delete, Serves-read, Serves-value,
}
use corebank_api.Database.Consistency.Blocks.{serves_rules}
use corebank_api.Database.Consistency.Wholes.{customers-Whole}
use corebank_api.Database.Tables.{customers_table}
use corebank_api.Database.Engine.{Engine}
use corebank_api.Database.Schema.{Customer}
use corebank_api.Prelude.{arith, ◌≡◌, List, String}
use corebank_api.Services.Helpers.{Actor}

module _ ⦃e : Engine⦄ where
  insert-Keeps : (row : Customer) → Keeps (Customers.insert row)
  unfolding Customers.insert
  insert-Keeps row = Keeps-insert customers_table customers-Whole row

  delete-Keeps : (id : String) → Keeps (Customers.delete id)
  unfolding Customers.delete
  delete-Keeps id = Keeps-delete customers_table customers-Whole id

  update-Keeps :
      (id : String) (fields : List Customers.Assignment) → Keeps (Customers.update id fields)
  unfolding Customers.update Customers.set_column customers_table
  update-Keeps id fields =
      Keeps-assignments customers_table customers-Whole Customers.set_column id fields stable
    where
      stable :
          (c : Customers.Assignment) (x : Customer)
          → customers_table.key (Customers.set_column c x) ≡ customers_table.key x
      stable c x = ground arith

  pub create-Serves :
      (new_row : Customer.NewCustomer) (id : String) → Serves (Customer.create new_row id)
  unfolding Customer.create
  create-Serves new_row id = search (serves_rules, insert-Keeps)

  pub update-Serves :
      (id : String) (fields : List Customers.Assignment) (actor : Actor)
      → Serves (Customer.update id fields actor)
  unfolding Customer.update Customers.get
  update-Serves id fields actor = search (serves_rules, Serves-value, update-Keeps)

  pub delete-Serves : (id : String) → Serves (Customer.delete id)
  unfolding Customer.delete
  delete-Serves id = search (serves_rules, delete-Keeps)

  pub list_all-Serves : Serves (Customer.list_all)
  unfolding Customer.list_all
  list_all-Serves = Serves-read Customers.list_all

  pub get-Serves : (id : String) (actor : Actor) → Serves (Customer.get id actor)
  unfolding Customer.get
  get-Serves id actor = search (serves_rules, Serves-value)

-- Every operation of the service keeps the database consistent.
pub ruleset customer_consistent =
    (create-Serves, update-Serves, delete-Serves, list_all-Serves, get-Serves)
