-- ===== src/Services/Auth/Login.antt =====
-- What a login of app/services/auth_service.py can end in.
use corebank_api.Repositories.Users
use corebank_api.Prelude.{
  sym, ◌∙◌, false, Bool-cases, inr, inl, Option-cases, ap, ◌⊎◌, true, some, ◌≡◌, String,
}
use corebank_api.Database.Engine.{same, Engine}
use corebank_api.Services.Auth.{invalid_credentials, Hasher, check_credentials, authenticate}
use corebank_api.Database.Uow.{read_only, World}
use corebank_api.Database.Schema.{User}
use corebank_api.Database.Rows.{find}
use corebank_api.Errors.{err, ok}
use corebank_api.Database.Tables.{users_table}
use corebank_api.Database.Uow.Atomicity.{read_only_lem}

same_value : {u v : User} → some u ≡ some v → u ≡ v
same_value h = cc

module _ ⦃e : Engine⦄ where
  -- A login writes nothing and lends no connection out. If it returns, a user with that name exists,
  -- the password passes the check against the stored hash, and the principal is that user's; if it
  -- raises, no such user exists or the password fails the check, and the exception is the same in
  -- both cases.
  pub authenticate_ends :
      (hasher : Hasher) (name password : String) (w : World)
      → ((authenticate hasher name password w).1 ≡ w)
        × (((u : User) × (find (λ v. same v.username name) w.committed.users ≡ some u)
              × (hasher.check_password_hash u.password password ≡ true)
              × ((authenticate hasher name password w).0
                  ≡ ok
                      (record { user_id = u.user_id; role = u.role; customer_id = u.customer_id })))
            ⊎ (((authenticate hasher name password w).0 ≡ err invalid_credentials)
                × ((u : User)
                    → find (λ v. same v.username name) w.committed.users ≡ some u
                    → hasher.check_password_hash u.password password ≡ false)))
  unfolding authenticate Users.get_by_username check_credentials read_only users_table
  authenticate_ends hasher name password w = (
    ap (λ x. x.1) (read_only_lem (Users.get_by_username name) w),
    elim (Option-cases (find (λ v. same v.username name) w.committed.users)) [
      | inl nobody ↦ inr (rw nobody, λ u f. cc)
      | inr (u, found) ↦ elim (Bool-cases (hasher.check_password_hash u.password password)) [
        | inl right ↦ inl (u, found, right, rw found (rw right))
        | inr wrong ↦ inr (
          rw found (rw wrong),
          λ v f.
              ap (λ (x : User). hasher.check_password_hash x.password password)
                (same_value (sym f ∙ found))
              ∙ wrong,
        )
      ]
    ],
  )
