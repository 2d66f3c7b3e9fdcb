-- ===== src/Config.antt =====
-- app/config.py: the configuration by environment, and the checks before the application starts.
-- The environment is a function from names to values; `int` of a text and `str.lower` are
-- parameters.
use mathlib.Core.Option
use corebank_api.Prelude.{
  ℤ, [], if◌then◌else◌, Bool, ◌∷◌, some, false, List, none, true, str_eq, Option, String,
}

-- `str.lower`, and `int` of a text, which has no value where it raises.
pub record Python : Type 0 where
  pub lower : String → String
  pub int : String → Option ℤ

abbrev pub Environ : Type 0
Environ = String → Option String

-- `os.getenv(name, default)`
unfoldable pub getenv : Environ → String → String → String
getenv env name default = elim (env name) [ none ↦ default | some v ↦ v ]

-- The classes of configuration.
pub data Profile : Type 0 where
  development testing production : Profile

-- The settings that `validate` and the factory read; `JWT_SECRET_KEY` may be missing.
pub record Settings : Type 0 where
  pub profile : Profile
  pub jwt_secret_key : Option String
  pub db_host : String
  pub db_user : String
  pub db_password : String
  pub db_name : String
  pub cors_origins : String
  pub is_testing : Bool
  pub is_debug : Bool

-- the class attribute `JWT_SECRET_KEY`
unfoldable pub secret_of : Environ → Profile → Option String
unfolding getenv
secret_of env development =
    some (getenv env "JWT_SECRET_KEY" "dev-only-insecure-secret-key-not-for-production")
secret_of env testing =
    some (getenv env "JWT_SECRET_KEY" "test-only-secret-key-at-least-32-bytes-long")
secret_of env production = env "JWT_SECRET_KEY"

abbrev pub default_name : Profile → String
default_name testing = "bank_test"
default_name _ = "bank"

-- the class bodies of `BaseConfig` and its subclasses
unfoldable pub settings_of : Environ → Profile → Settings
unfolding getenv secret_of
settings_of env p = record {
  profile = p;
  jwt_secret_key = secret_of env p;
  db_host = getenv env "DB_HOST" "localhost";
  db_user = getenv env "DB_USER" "root";
  db_password = getenv env "DB_PASSWORD" "";
  db_name = getenv env "DB_NAME" (default_name p);
  cors_origins = getenv env "CORS_ORIGINS" "*";
  is_testing = elim p [ testing ↦ true | _ ↦ false ];
  is_debug = elim p [ development ↦ true | _ ↦ false ];
}

-- The settings that are numbers.
pub record Numbers : Type 0 where
  pub token_hours : ℤ
  pub db_port : ℤ
  pub db_pool_size : ℤ

-- The calls of `int` in the body of `BaseConfig`: if one raises, the module cannot be imported.
unfoldable pub numbers_of : Python → Environ → Option Numbers
unfolding getenv
numbers_of python env =
    Option.bind (python.int (getenv env "JWT_ACCESS_TOKEN_EXPIRES_HOURS" "1")) λ hours.
      Option.bind (python.int (getenv env "DB_PORT" "3306")) λ port.
        Option.bind (python.int (getenv env "DB_POOL_SIZE" "5"))
          λ size. some (record { token_hours = hours; db_port = port; db_pool_size = size })

-- What `validate` ends in; the second and third refuse to start.
pub data Verdict : Type 0 where
  accepted : Verdict
  missing_variables : List String → Verdict
  open_cors : Verdict

-- `not value`, for an attribute that may be `None`
abbrev pub is_unset : Option String → Bool
is_unset none = true
is_unset (some v) = str_eq v ""

-- the attributes that production wants, with their names
abbrev pub required : Settings → List (String × Option String)
required c =
    ("JWT_SECRET_KEY", c.jwt_secret_key)
    ∷ ("DB_PASSWORD", some c.db_password)
    ∷ ("DB_NAME", some c.db_name)
    ∷ ("DB_USER", some c.db_user)
    ∷ ("DB_HOST", some c.db_host)
    ∷ []

abbrev pub missing : List (String × Option String) → List String
missing [] = []
missing ((name, value) ∷ rest) =
    let others = missing rest in if is_unset value then name ∷ others else others

abbrev pub verdict_of : List String → String → Verdict
verdict_of (name ∷ names) origins = missing_variables (name ∷ names)
verdict_of [] origins = if str_eq origins "*" then open_cors else accepted

-- `validate` of each class
unfoldable pub validate : Settings → Verdict
unfolding str_eq
validate c = elim c.profile [
  | production ↦ verdict_of (missing (required c)) c.cors_origins
  | _ ↦ accepted
]

-- `_CONFIGS.get(name, DevelopmentConfig)`
unfoldable pub profile_of : String → Profile
unfolding str_eq
profile_of name =
    if str_eq name "development"
    then development
    else if str_eq name "testing"
    then testing
    else if str_eq name "production"
    then production
    else development

-- `name or os.getenv("APP_ENV", "development")`
unfoldable pub chosen_name : Environ → Option String → String
unfolding getenv str_eq
chosen_name env none = getenv env "APP_ENV" "development"
chosen_name env (some name) = if str_eq name "" then getenv env "APP_ENV" "development" else name

unfoldable pub get_config : Python → Environ → Option String → Verdict × Settings
unfolding settings_of validate profile_of chosen_name
get_config python env name =
    let c = settings_of env (profile_of (python.lower (chosen_name env name))) in (validate c, c)
