-- ===== src/Services/User.antt =====
-- app/services/user_service.py: `salt` is the random text of a hash.
pub mod RoundTrip
use corebank_api.Repositories.Users
use corebank_api.Prelude.{map, Option, List, String}
use corebank_api.Services.Auth.{Hasher}
use corebank_api.Database.Engine.{Engine}
use corebank_api.Database.Uow.{integrity_guard, read_only, unit_of_work, after, Action}
use corebank_api.Database.Schema.{User, Role}
use corebank_api.Database.Statement.{require_row, pure, ◌>>=◌, value_or, ◌>>◌}
use corebank_api.Errors.{not_found, app}

-- The `record` of `create`.
unfoldable pub new_record : Hasher → String → String → Role → Option String → String → String → User
new_record hasher name password role customer_id id salt = record {
  user_id = id;
  username = name;
  password = hasher.generate_password_hash salt password;
  role = role;
  customer_id = customer_id;
}

-- `fields["password"] = generate_password_hash(fields["password"])`
unfoldable pub hash_field : Hasher → String → Users.Assignment → Users.Assignment
hash_field hasher salt (Users.Assignment.password p) =
    Users.Assignment.password (hasher.generate_password_hash salt p)
hash_field hasher salt (Users.Assignment.username n) = Users.Assignment.username n
hash_field hasher salt (Users.Assignment.role r) = Users.Assignment.role r
hash_field hasher salt (Users.Assignment.customer_id c) = Users.Assignment.customer_id c

module _ ⦃e : Engine⦄ where
  unfoldable pub create :
      Hasher → String → String → Role → Option String → String → String → Action Users.PublicUser
  create hasher name password role customer_id id salt = unit_of_work (
      integrity_guard do
        Users.insert (new_record hasher name password role customer_id id salt)
        pure (Users.public (new_record hasher name password role customer_id id salt)))

  unfoldable pub list_all : Action (List Users.PublicUser)
  list_all = read_only Users.list_all

  unfoldable pub get : String → Action Users.PublicUser
  get user_id =
      after (read_only (Users.get user_id)) λ found. value_or found (app not_found "User not found")

  unfoldable pub update :
      Hasher → String → List Users.Assignment → String → Action (Option Users.PublicUser)
  update hasher user_id fields salt = unit_of_work (
      integrity_guard do
        written ← Users.update user_id (map (hash_field hasher salt) fields)
        require_row written (app not_found "User not found")
        Users.get user_id)

  unfoldable pub delete : String → Action (Unit {0})
  delete user_id = unit_of_work (
      integrity_guard
        do gone ← Users.delete user_id; require_row gone (app not_found "User not found"))
