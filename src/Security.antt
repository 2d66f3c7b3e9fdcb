-- ===== src/Security.antt =====
-- app/security/auth.py: the gates before a view. What `flask_jwt_extended` makes of the
-- Authorization header of a request is an argument of every view.
use corebank_api.Prelude.{[], ◌∷◌, String, if◌then◌else◌, List, ℕ}
use corebank_api.Errors.{
  invalid_operation, err, db_error, ok, bad_request, Exception, status_code, Result, app, forbidden,
}
use corebank_api.Services.Helpers.{Actor, is_admin}
use corebank_api.Database.Uow.{Action, World, fail}

-- The failures that the loaders of `register_jwt_handlers` answer.
pub data JwtFailure : Type 0 where
  missing invalid expired revoked : JwtFailure

pub data Credentials : Type 0 where
  verified : Actor → Credentials
  refused : JwtFailure → Credentials

unfoldable pub jwt_message : JwtFailure → String
jwt_message missing = "Missing or malformed Authorization header"
jwt_message invalid = "Invalid authentication token"
jwt_message expired = "Authentication token has expired"
jwt_message revoked = "Authentication token has been revoked"

-- A response: a status with a body, or the error envelope with its code and message.
pub data Reply {ℓ} (A : Type ℓ) : Type ℓ where
  success : ℕ → A → Reply A
  failure : ℕ → String → Reply A

-- The `_envelope` of `register_jwt_handlers`.
unfoldable pub jwt_envelope : {A : Type 0} → JwtFailure → Reply A
unfolding jwt_message
jwt_envelope reason = failure 401 (jwt_message reason)

-- The handlers of `register_error_handlers` of app/api/errors.py for the exceptions of a service.
unfoldable pub error_reply : {A : Type 0} → Exception → Reply A
unfolding status_code
error_reply (app kind message) = failure (status_code kind) message
error_reply (db_error _ _) = failure 500 "Internal server error"
error_reply invalid_operation = failure 500 "Internal server error"

abbrev pub View : Type 0 → Type 0
View A = Credentials → World → Reply A × World

-- What a call of a service is answered with: the view's status, or an envelope.
unfoldable pub reply_of : {A : Type 0} → ℕ → Result A → Reply A
unfolding error_reply
reply_of code (ok a) = success code a
reply_of code (err x) = error_reply x

unfoldable pub respond : {A : Type 0} → ℕ → Action A → World → Reply A × World
unfolding reply_of
respond code m w = let (r, after_call) = m w in (reply_of code r, after_call)

-- `@jwt_required()`
unfoldable pub jwt_required : {A : Type 0} → ℕ → (Actor → Action A) → View A
unfolding jwt_envelope respond
jwt_required code call (refused reason) w = (jwt_envelope reason, w)
jwt_required code call (verified actor) w = respond code (call actor) w

abbrev pub admin_only : {A : Type 0} → (Actor → Action A) → Actor → Action A
admin_only call actor =
    if is_admin actor then call actor else fail (app forbidden "Administrator access required")

-- `@admin_required`
unfoldable pub admin_required : {A : Type 0} → ℕ → (Actor → Action A) → View A
unfolding jwt_required
admin_required code call = jwt_required code (admin_only call)

-- `if not data: raise BadRequestError("No fields to update")`
unfoldable pub some_fields : {A B : Type 0} → List A → Action B → Action B
some_fields [] m = fail (app bad_request "No fields to update")
some_fields (field ∷ fields) m = m
