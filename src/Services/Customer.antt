-- ===== src/Services/Customer.antt =====
-- app/services/customer_service.py: in `NewCustomer` a key that the dict may lack is an Option.
use corebank_api.Repositories.Customers
use corebank_api.Prelude.{some, pos, ℤ, Option, List, String, ℕ}
use corebank_api.Database.Engine.{Engine}
use corebank_api.Database.Schema.{Customer}
use corebank_api.Database.Uow.{after, integrity_guard, unit_of_work, with_value, read_only, Action}
use corebank_api.Services.Helpers.{ensure_owner_or_admin, Actor}
use mathlib.Core.Option.{get_or}
use corebank_api.Database.Statement.{value_or, require_row, pure, ◌>>=◌, ◌>>◌}
use corebank_api.Errors.{not_found, app}

-- The `data` of `create`.
pub record NewCustomer : Type 0 where
  pub first_name : String
  pub last_name : String
  pub date_of_birth : ℕ
  pub phone_number : String
  pub email : String
  pub address_line1 : String
  pub address_line2 : Option String
  pub city : String
  pub zip_code : String
  pub wage_declaration : Option ℤ

-- The `record` of `create`.
unfoldable pub new_record : NewCustomer → String → Customer
new_record new_row id = record {
  customer_id = id;
  first_name = new_row.first_name;
  last_name = new_row.last_name;
  date_of_birth = new_row.date_of_birth;
  phone_number = new_row.phone_number;
  email = new_row.email;
  address_line1 = new_row.address_line1;
  address_line2 = new_row.address_line2;
  city = new_row.city;
  zip_code = new_row.zip_code;
  wage_declaration = some (get_or new_row.wage_declaration (pos 0));
}

module _ ⦃e : Engine⦄ where
  unfoldable pub create : NewCustomer → String → Action Customer
  create new_row id =
      unit_of_work
        (integrity_guard do Customers.insert (new_record new_row id); pure (new_record new_row id))

  unfoldable pub list_all : Action (List Customer)
  list_all = read_only Customers.list_all

  unfoldable pub get : String → Actor → Action Customer
  get customer_id actor = with_value (ensure_owner_or_admin actor (some customer_id)) λ _.
      after (read_only (Customers.get customer_id))
        λ found. value_or found (app not_found "Customer not found")

  unfoldable pub update : String → List Customers.Assignment → Actor → Action (Option Customer)
  update customer_id fields actor = with_value (ensure_owner_or_admin actor (some customer_id)) λ _.
      unit_of_work (
        integrity_guard do
          written ← Customers.update customer_id fields
          require_row written (app not_found "Customer not found")
          Customers.get customer_id)

  unfoldable pub delete : String → Action (Unit {0})
  delete customer_id = unit_of_work (
      integrity_guard do
        gone ← Customers.delete customer_id
        require_row gone (app not_found "Customer not found"))
