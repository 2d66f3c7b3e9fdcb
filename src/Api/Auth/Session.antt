-- ===== src/Api/Auth/Session.antt =====
-- A login of app/api/auth.py and the requests made with its token.
use corebank_api.Api.Auth.{
  require_owner_or_admin, Claims, JwtManager, Token, credentials_of, current_user, decoded, login,
  me, token_of,
}
use corebank_api.Services.Auth.{invalid_credentials, Hasher, Principal, authenticate}
use corebank_api.Services.Auth.Login.{authenticate_ends}
use corebank_api.Security.{reply_of, success, failure, Reply}
use corebank_api.Database.Engine.{same, Engine}
use corebank_api.Database.Schema.{user, admin, user, admin, Role, User}
use corebank_api.Prelude.{none, Option, ap, refl, inr, inl, false, ◌⊎◌, true, some, ◌≡◌, String}
use corebank_api.Services.Helpers.{owns, is_blank, is_admin, ensure_owner_or_admin, Actor}
use corebank_api.Database.Uow.{and_then, World}
use corebank_api.Database.Rows.{find}
use corebank_api.Errors.{Result, err, ok}

-- The token of a user, before it expires, is read back as what it was made of.
abbrev pub IsFaithful : JwtManager → User → Type 0
IsFaithful jwt u =
    let claims : Claims = record { role = some u.role; customer_id = u.customer_id } in
    jwt.verify_jwt_in_request (jwt.create_access_token u.user_id claims) ≡ decoded u.user_id claims

abbrev pub actor_of : User → Actor
actor_of u = record { user_id = u.user_id; role = some u.role; customer_id = u.customer_id }

abbrev pub wrong_login : Reply Token
wrong_login = failure 401 "Invalid credentials"

-- The check of the security layer, which reads the claims of the token, and that of the services,
-- which reads the principal of the same token, pass and refuse alike.
pub require_owner_or_admin_lem :
    (identity : String) (claims : Claims) (customer_id : Option String)
    → require_owner_or_admin claims customer_id
      ≡ ensure_owner_or_admin (current_user identity claims) customer_id
unfolding require_owner_or_admin ensure_owner_or_admin current_user is_admin is_blank owns
require_owner_or_admin_lem identity claims none = go claims.role
  where
    go :
        (r : Option Role)
        → require_owner_or_admin (record claims { role = r }) none
          ≡ ensure_owner_or_admin (current_user identity (record claims { role = r })) none
    go none = refl
    go (some admin) = refl
    go (some user) = refl
require_owner_or_admin_lem identity claims (some id) = go claims.role
  where
    go :
        (r : Option Role)
        → require_owner_or_admin (record claims { role = r }) (some id)
          ≡ ensure_owner_or_admin (current_user identity (record claims { role = r })) (some id)
    go none = refl
    go (some admin) = refl
    go (some user) = refl

-- what `login` answers, by the result of `authenticate`
abbrev answer : JwtManager → Result Principal × World → Reply Token × World
answer jwt r = (reply_of 200 (and_then r.0 λ who. ok (token_of jwt who)), r.1)

module _ ⦃e : Engine⦄ where
  -- A login leaves the database and the pool as they are. Either a user of that name exists whose
  -- stored hash the password passes, and the answer is 200 with a bearer token, for which `me`
  -- answers that user's id, role and customer id as long as the token is valid; or no such user
  -- exists or the password fails, and the answer is the same 401.
  pub login-me :
      (hasher : Hasher) (jwt : JwtManager) (name password : String) (w : World)
      → ((u : User)
          → find (λ v. same v.username name) w.committed.users ≡ some u
          → IsFaithful jwt u)
      → ((login hasher jwt name password w).1 ≡ w)
        × (((u : User) × (t : Token) × (find (λ v. same v.username name) w.committed.users ≡ some u)
              × (hasher.check_password_hash u.password password ≡ true)
              × ((login hasher jwt name password w).0 ≡ success 200 t)
              × ((later : World)
                  → me (credentials_of (jwt.verify_jwt_in_request t.access_token)) later
                    ≡ (success 200 (actor_of u), later)))
            ⊎ (((login hasher jwt name password w).0 ≡ wrong_login)
                × ((u : User)
                    → find (λ v. same v.username name) w.committed.users ≡ some u
                    → hasher.check_password_hash u.password password ≡ false)))
  unfolding login me token_of current_user invalid_credentials
  login-me hasher jwt name password w faithful =
      let (left, ends) = authenticate_ends hasher name password w in
      elim ends [
        | inl (u, found, right, result) ↦
            let who : Principal = record {
              user_id = u.user_id;
              role = u.role;
              customer_id = u.customer_id;
            } in
            let run : authenticate hasher name password w ≡ (ok who, w) =
              (λ i. (result i, left i)) in
            let back = faithful u found in
            let e = ap (answer jwt) run in
            (
              ap (λ r. r.1) e,
              inl (u, token_of jwt who, found, right, ap (λ r. r.0) e, λ later. rw back refl),
            )
        | inr (result, wrong) ↦
            let run : authenticate hasher name password w ≡ (err invalid_credentials, w) =
              (λ i. (result i, left i)) in
            let e = ap (answer jwt) run in (ap (λ r. r.1) e, inr (ap (λ r. r.0) e, wrong))
      ]
