-- ===== src/Api/Auth.antt =====
-- app/api/auth.py: the login and the identity of a token. What `flask_jwt_extended` signs and reads
-- back is a parameter.
pub mod Session
use corebank_api.Prelude.{not, ◌||◌, true, none, if◌then◌else◌, str_eq, String, Option, some}
use corebank_api.Errors.{err, Result, ok}
use corebank_api.Database.Engine.{Engine}
use corebank_api.Database.Schema.{admin, Role}
use corebank_api.Database.Uow.{after, World}
use corebank_api.Security.{
  Credentials, JwtFailure, Reply, View, jwt_required, refused, respond, verified,
}
use corebank_api.Services.Auth.{Hasher, Principal, authenticate}
use corebank_api.Services.Helpers.{no_access, own_test, Actor}

-- The `additional_claims` of a token, and what `get_jwt` gives of them.
pub record Claims : Type 0 where
  pub role : Option Role
  pub customer_id : Option String

-- What the library makes of the Authorization header of a request.
pub data Decoded : Type 0 where
  decoded : String → Claims → Decoded
  rejected : JwtFailure → Decoded

-- What the code relies on in `flask_jwt_extended`.
pub record JwtManager : Type 0 where
  pub create_access_token : String → Claims → String
  pub verify_jwt_in_request : String → Decoded

pub record Token : Type 0 where
  pub access_token : String
  pub token_type : String

-- `current_user` of app/security/auth.py
unfoldable pub current_user : String → Claims → Actor
current_user identity claims = record {
  user_id = identity;
  role = claims.role;
  customer_id = claims.customer_id;
}

abbrev pub credentials_of : Decoded → Credentials
credentials_of (decoded identity claims) = verified (current_user identity claims)
credentials_of (rejected reason) = refused reason

unfoldable pub token_of : JwtManager → Principal → Token
token_of jwt who = record {
  access_token =
      jwt.create_access_token who.user_id
        (record { role = some who.role; customer_id = who.customer_id });
  token_type = "bearer";
}

-- `require_owner_or_admin` of app/security/auth.py, which no view calls
unfoldable pub require_owner_or_admin : Claims → Option String → Result (Unit {0})
unfolding str_eq
require_owner_or_admin claims customer_id = elim claims.role [
  | some admin ↦ ok tt
  | _ ↦
      if elim customer_id [
        | none ↦ true
        | some id ↦ str_eq id "" || not (own_test claims.customer_id id)
      ]
      then err no_access
      else ok tt
]

module _ ⦃e : Engine⦄ where
  -- `Login.post`
  unfoldable pub login : Hasher → JwtManager → String → String → World → Reply Token × World
  unfolding respond authenticate token_of
  login hasher jwt username password =
      respond 200 (after (authenticate hasher username password) λ who. ok (token_of jwt who))

-- `Me.get`
unfoldable pub me : View Actor
unfolding jwt_required
me = jwt_required 200 (λ actor w. (ok actor, w))
