-- ===== src/Services/Consistency/User.antt =====
-- app/repositories/users.py and app/services/user_service.py keep the database consistent.
use corebank_api.Repositories.Users
use corebank_api.Services.User
use corebank_api.Database.Consistency.Keeps.{
  Keeps, Serves, Keeps-insert, Keeps-assignments, Keeps-delete, Serves-read,
}
use corebank_api.Database.Consistency.Blocks.{serves_rules}
use corebank_api.Database.Consistency.Leaves.{users-Whole}
use corebank_api.Database.Tables.{users_table}
use corebank_api.Database.Engine.{Engine}
use corebank_api.Database.Schema.{Role, User}
use corebank_api.Services.Auth.{Hasher}
use corebank_api.Prelude.{arith, Option, ◌≡◌, List, String}

module _ ⦃e : Engine⦄ where
  insert-Keeps : (row : User) → Keeps (Users.insert row)
  unfolding Users.insert
  insert-Keeps row = Keeps-insert users_table users-Whole row

  delete-Keeps : (id : String) → Keeps (Users.delete id)
  unfolding Users.delete
  delete-Keeps id = Keeps-delete users_table users-Whole id

  update-Keeps : (id : String) (fields : List Users.Assignment) → Keeps (Users.update id fields)
  unfolding Users.update Users.set_column users_table
  update-Keeps id fields =
      Keeps-assignments users_table users-Whole Users.set_column id fields stable
    where
      stable :
          (c : Users.Assignment) (x : User)
          → users_table.key (Users.set_column c x) ≡ users_table.key x
      stable c x = ground arith

  pub create-Serves :
      (hasher : Hasher) (name password : String) (role : Role) (customer_id : Option String)
      (id salt : String)
      → Serves (User.create hasher name password role customer_id id salt)
  unfolding User.create
  create-Serves hasher name password role customer_id id salt = search (serves_rules, insert-Keeps)

  pub update-Serves :
      (hasher : Hasher) (id : String) (fields : List Users.Assignment) (salt : String)
      → Serves (User.update hasher id fields salt)
  unfolding User.update Users.get
  update-Serves hasher id fields salt = search (serves_rules, update-Keeps)

  pub delete-Serves : (id : String) → Serves (User.delete id)
  unfolding User.delete
  delete-Serves id = search (serves_rules, delete-Keeps)

  pub list_all-Serves : Serves (User.list_all)
  unfolding User.list_all
  list_all-Serves = Serves-read Users.list_all

  pub get-Serves : (id : String) → Serves (User.get id)
  unfolding User.get
  get-Serves id = search serves_rules

-- Every operation of the service keeps the database consistent.
pub ruleset user_consistent =
    (create-Serves, update-Serves, delete-Serves, list_all-Serves, get-Serves)
