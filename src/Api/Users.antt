-- ===== src/Api/Users.antt =====
-- app/api/users.py
use corebank_api.Prelude.{Option, List, String}
use corebank_api.Repositories.Users
use corebank_api.Services.User
use corebank_api.Database.Engine.{Engine}
use corebank_api.Security.{some_fields, View, admin_required}
use corebank_api.Services.Auth.{Hasher}
use corebank_api.Database.Schema.{Role}
use corebank_api.Repositories.Users.{PublicUser}

module _ ⦃e : Engine⦄ where
  unfoldable pub get_all : View (List PublicUser)
  unfolding admin_required
  get_all = admin_required 200 λ _. User.list_all

  unfoldable pub post :
      Hasher → String → String → Role → Option String → String → String → View PublicUser
  unfolding admin_required
  post hasher name password role customer_id id salt =
      admin_required 201 λ _. User.create hasher name password role customer_id id salt

  unfoldable pub get : String → View PublicUser
  unfolding admin_required
  get id = admin_required 200 λ _. User.get id

  unfoldable pub put : Hasher → String → List Users.Assignment → String → View (Option PublicUser)
  unfolding admin_required
  put hasher id fields salt =
      admin_required 200 λ _. some_fields fields (User.update hasher id fields salt)

  unfoldable pub delete : String → View (Unit {0})
  unfolding admin_required
  delete id = admin_required 204 λ _. User.delete id
