-- ===== src/Errors.antt =====
-- app/services/exceptions.py: the domain exceptions, beside the other exceptions that a service
-- call can end in: what PyMySQL raises for a statement that the server refuses, and what
-- `decimal` raises where a result does not fit its context.
use corebank_api.Prelude.{◌≡◌, ℕ, String, Option, none, some, str_eq, if◌then◌else◌}

-- The classes of app/services/exceptions.py; `app_error` is the base class.
pub data Kind : Type 0 where
  app_error bad_request auth_error forbidden not_found conflict business_rule : Kind

unfoldable pub status_code : Kind → ℕ
status_code app_error = 500
status_code bad_request = 400
status_code auth_error = 401
status_code forbidden = 403
status_code not_found = 404
status_code conflict = 409
status_code business_rule = 422

unfoldable pub default_message : Kind → String
default_message app_error = "Internal server error"
default_message bad_request = "Bad request"
default_message auth_error = "Authentication failed"
default_message forbidden = "Access forbidden"
default_message not_found = "Resource not found"
default_message conflict = "Conflict"
default_message business_rule = "Business rule violation"

-- The classes of `pymysql.err` that a refused statement is raised as.
pub data ErrorClass : Type 0 where
  integrity_error data_error operational_error programming_error : ErrorClass

pub data Exception : Type 0 where
  app : Kind → String → Exception
  db_error : ErrorClass → ℕ → Exception
  invalid_operation : Exception

-- `AppError.__init__`: `message or self.default_message`.
unfoldable pub app_exception : Kind → Option String → Exception
unfolding str_eq default_message
app_exception k none = app k (default_message k)
app_exception k (some m) = if str_eq m "" then app k (default_message k) else app k m

pub data Result {ℓ} (A : Type ℓ) : Type ℓ where
  ok : A → Result A
  err : Exception → Result A

pub ok_eq : {A : Type 0} {a b : A} → ok a ≡ ok b → a ≡ b
ok_eq h = cc
