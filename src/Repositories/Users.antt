-- ===== src/Repositories/Users.antt =====
-- app/repositories/users.py
use mathlib.Core.Option
use corebank_api.Database.Statement.{
  pure, has_key, fetch_one, execute_assignments, execute_insert, execute_delete, fetch_all, Stmt,
  ◌>>=◌,
}
use corebank_api.Prelude.{map, true, Option, List, String, ℕ}
use corebank_api.Database.Engine.{same, Engine}
use corebank_api.Database.Schema.{Role, User}
use corebank_api.Database.Tables.{users_table}

-- A column that `fields` may name, and its new value.
pub data Assignment : Type 0 where
  username : String → Assignment
  password : String → Assignment
  role : Role → Assignment
  customer_id : Option String → Assignment

unfoldable pub set_column : Assignment → User → User
set_column (username v) r = record r { username = v }
set_column (password v) r = record r { password = v }
set_column (role v) r = record r { role = v }
set_column (customer_id v) r = record r { customer_id = v }

-- The columns of `PUBLIC_COLUMNS`.
pub record PublicUser : Type 0 where
  pub user_id : String
  pub username : String
  pub role : Role
  pub customer_id : Option String

unfoldable pub public : User → PublicUser
public u = record {
  user_id = u.user_id;
  username = u.username;
  role = u.role;
  customer_id = u.customer_id;
}

module _ ⦃e : Engine⦄ where
  unfoldable pub insert : User → Stmt (Unit {0})
  insert row = execute_insert users_table row

  -- the only statement that reads the hash
  unfoldable pub get_by_username : String → Stmt (Option User)
  unfolding users_table
  get_by_username name = fetch_one users_table (λ u. same u.username name)

  unfoldable pub list_all : Stmt (List PublicUser)
  unfolding users_table public
  list_all = do rows ← fetch_all users_table (λ _. true); pure (map public rows)

  unfoldable pub get : String → Stmt (Option PublicUser)
  unfolding users_table public
  get user_id = do
    row ← fetch_one users_table (has_key users_table user_id)
    pure (Option.map public row)

  unfoldable pub update : String → List Assignment → Stmt ℕ
  unfolding set_column
  update user_id fields = execute_assignments users_table set_column user_id fields

  unfoldable pub delete : String → Stmt ℕ
  delete user_id = execute_delete users_table user_id
