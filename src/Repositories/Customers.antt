-- ===== src/Repositories/Customers.antt =====
-- app/repositories/customers.py
use corebank_api.Prelude.{some, true, ℤ, List, Option, String, ℕ}
use corebank_api.Database.Engine.{Engine}
use corebank_api.Database.Schema.{Customer}
use corebank_api.Database.Statement.{
  has_key, fetch_one, execute_assignments, fetch_all, execute_delete, execute_insert, Stmt,
}
use corebank_api.Database.Tables.{customers_table}

-- A column that `fields` may name, and its new value.
pub data Assignment : Type 0 where
  first_name : String → Assignment
  last_name : String → Assignment
  phone_number : String → Assignment
  email : String → Assignment
  address_line1 : String → Assignment
  address_line2 : Option String → Assignment
  city : String → Assignment
  zip_code : String → Assignment
  wage_declaration : ℤ → Assignment

unfoldable pub set_column : Assignment → Customer → Customer
set_column (first_name v) r = record r { first_name = v }
set_column (last_name v) r = record r { last_name = v }
set_column (phone_number v) r = record r { phone_number = v }
set_column (email v) r = record r { email = v }
set_column (address_line1 v) r = record r { address_line1 = v }
set_column (address_line2 v) r = record r { address_line2 = v }
set_column (city v) r = record r { city = v }
set_column (zip_code v) r = record r { zip_code = v }
set_column (wage_declaration v) r = record r { wage_declaration = some v }

module _ ⦃e : Engine⦄ where
  unfoldable pub insert : Customer → Stmt (Unit {0})
  insert row = execute_insert customers_table row

  unfoldable pub list_all : Stmt (List Customer)
  unfolding customers_table
  list_all = fetch_all customers_table (λ _. true)

  unfoldable pub get : String → Stmt (Option Customer)
  unfolding customers_table
  get customer_id = fetch_one customers_table (has_key customers_table customer_id)

  unfoldable pub update : String → List Assignment → Stmt ℕ
  unfolding set_column
  update customer_id fields = execute_assignments customers_table set_column customer_id fields

  unfoldable pub delete : String → Stmt ℕ
  delete customer_id = execute_delete customers_table customer_id
