-- ===== src/App/Production.antt =====
-- What the application of app/__init__.py and app/config.py starts with in production.
use corebank_api.Prelude.{
  ◌∙◌, subst, codes, ap, true, none, str_eq_iff, inr, refl, inl, Bool-cases, Option-cases, arith,
  false, ◌∷◌, [], some, ◌≡◌, str_eq, Option, String,
}
use corebank_api.Config
use corebank_api.App.{
  everyone, origins_of, cors_of, started, start_of, start_with, Application, create_app,
}

-- The environment holds the variable, and not the empty text.
abbrev pub HasValue : Config.Environ → String → Type 0
HasValue env name = (v : String) × (env name ≡ some v) × (str_eq v "" ≡ false)

-- `missing` and the two refusals of `ProductionConfig.validate`, on the values of the settings.
abbrev verdict : Option String → String → String → String → String → String → Config.Verdict
verdict secret password name user host origins =
    Config.verdict_of
      (Config.missing (
        ("JWT_SECRET_KEY", secret)
        ∷ ("DB_PASSWORD", some password)
        ∷ ("DB_NAME", some name)
        ∷ ("DB_USER", some user)
        ∷ ("DB_HOST", some host)
        ∷ []))
      origins

verdict_only :
    (secret : Option String) (password name user host origins : String)
    → verdict secret password name user host origins ≡ Config.accepted
    → (Config.is_unset secret ≡ false) × (str_eq password "" ≡ false) × (str_eq origins "*" ≡ false)
verdict_only secret password name user host origins h = (ground arith, ground arith, ground arith)

verdict_goes :
    (secret : Option String) (password name user host origins : String)
    → Config.is_unset secret ≡ false
    → str_eq password "" ≡ false
    → str_eq name "" ≡ false
    → str_eq user "" ≡ false
    → str_eq host "" ≡ false
    → str_eq origins "*" ≡ false
    → verdict secret password name user host origins ≡ Config.accepted
verdict_goes secret password name user host origins a b c d e f = ground arith

getenv-none :
    (env : Config.Environ) (name default : String)
    → env name ≡ none
    → Config.getenv env name default ≡ default
unfolding Config.getenv
getenv-none env name default h = rw (h, Config.getenv)

getenv-some :
    (env : Config.Environ) (name default : String) {v : String}
    → env name ≡ some v
    → Config.getenv env name default ≡ v
unfolding Config.getenv
getenv-some env name default h = rw (h, Config.getenv)

set_secret :
    (env : Config.Environ)
    → Config.is_unset (env "JWT_SECRET_KEY") ≡ false
    → HasValue env "JWT_SECRET_KEY"
set_secret env h = elim (Option-cases (env "JWT_SECRET_KEY")) [
  | inl gone ↦ absurd (let k = rw gone at h in cc k)
  | inr (v, found) ↦ (v, found, rw found at h)
]

set_password :
    (env : Config.Environ)
    → str_eq (Config.getenv env "DB_PASSWORD" "") "" ≡ false
    → HasValue env "DB_PASSWORD"
unfolding Config.getenv
set_password env h = elim (Option-cases (env "DB_PASSWORD")) [
  | inl gone ↦ absurd (let k = rw (gone, Config.getenv) at h in cc (k, (str_eq_iff "" "").1 refl))
  | inr (v, found) ↦ (v, found, rw (found, Config.getenv) at h)
]

set_origins :
    (env : Config.Environ)
    → str_eq (Config.getenv env "CORS_ORIGINS" "*") "*" ≡ false
    → (v : String) × (env "CORS_ORIGINS" ≡ some v) × (str_eq v "*" ≡ false)
unfolding Config.getenv
set_origins env h = elim (Option-cases (env "CORS_ORIGINS")) [
  | inl gone ↦ absurd (let k = rw (gone, Config.getenv) at h in cc (k, (str_eq_iff "*" "*").1 refl))
  | inr (v, found) ↦ (v, found, rw (found, Config.getenv) at h)
]

started_accepted :
    (verdict : Config.Verdict) (c : Config.Settings) (numbers : Option Config.Numbers)
    {app : Application}
    → start_with (verdict, c) numbers ≡ started app
    → verdict ≡ Config.accepted
started_accepted verdict c none h = absurd (ground arith)
started_accepted Config.accepted c (some n) h = refl
started_accepted (Config.missing_variables names) c (some n) h = absurd (ground arith)
started_accepted Config.open_cors c (some n) h = absurd (ground arith)

-- An application that starts in production has a signing key and a database password from the
-- environment, neither empty, and a list of CORS origins from it that is not `*`.
pub production_is_set :
    (python : Config.Python) (env : Config.Environ) (name : Option String) (app : Application)
    → Config.profile_of (python.lower (Config.chosen_name env name)) ≡ Config.production
    → create_app python env name ≡ started app
    → HasValue env "JWT_SECRET_KEY"
      × HasValue env "DB_PASSWORD"
      × (v : String) × (env "CORS_ORIGINS" ≡ some v)
      × (str_eq v "*" ≡ false)
unfolding create_app Config.get_config Config.settings_of Config.validate Config.secret_of
production_is_set python env name app live h =
    let checked = rw live at h in
    let (secret, password, origins) =
      verdict_only (env "JWT_SECRET_KEY") (Config.getenv env "DB_PASSWORD" "")
        (Config.getenv env "DB_NAME" "bank") (Config.getenv env "DB_USER" "root")
        (Config.getenv env "DB_HOST" "localhost") (Config.getenv env "CORS_ORIGINS" "*")
        (started_accepted _ (Config.settings_of env Config.production)
          (Config.numbers_of python env) checked) in
    let (v, found, listed_only) = set_origins env origins in
    (set_secret env secret, set_password env password, v, found, listed_only)

filled : (str_eq "bank" "" ≡ false) × (str_eq "root" "" ≡ false) × (str_eq "localhost" "" ≡ false)
unfolding str_eq
filled = (refl, refl, refl)

-- With a signing key, a password, some CORS origins and numbers that can be read, but with no DB_NAME, DB_USER or DB_HOST,
-- production starts, as `root` on the database `bank` of `localhost`: the check of these three names
-- finds the defaults of the base class.
pub production_defaults :
    (python : Config.Python) (env : Config.Environ) (name : Option String) {k p o : String}
    {n : Config.Numbers}
    → Config.profile_of (python.lower (Config.chosen_name env name)) ≡ Config.production
    → env "JWT_SECRET_KEY" ≡ some k
    → str_eq k "" ≡ false
    → env "DB_PASSWORD" ≡ some p
    → str_eq p "" ≡ false
    → env "CORS_ORIGINS" ≡ some o
    → str_eq o "*" ≡ false
    → env "DB_NAME" ≡ none
    → env "DB_USER" ≡ none
    → env "DB_HOST" ≡ none
    → Config.numbers_of python env ≡ some n
    → (app : Application) × (create_app python env name ≡ started app)
      × (app.settings.db_host ≡ "localhost")
      × (app.settings.db_user ≡ "root")
      × (app.settings.db_name ≡ "bank")
      × (app.cors ≡ cors_of o)
unfolding create_app Config.get_config Config.settings_of Config.validate Config.secret_of
production_defaults python env name {k} {p} {o} {n} live secret has_secret password has_password
      origins listed_only no_name no_user no_host numbers =
    let c = Config.settings_of env Config.production in
    let host = getenv-none env "DB_HOST" "localhost" no_host in
    let user = getenv-none env "DB_USER" "root" no_user in
    let database = getenv-none env "DB_NAME" "bank" no_name in
    let word = getenv-some env "DB_PASSWORD" "" password in
    let origin = getenv-some env "CORS_ORIGINS" "*" origins in
    let goes : Config.validate c ≡ Config.accepted =
      verdict_goes (env "JWT_SECRET_KEY") c.db_password c.db_name c.db_user c.db_host c.cors_origins
        (rw secret has_secret) (rw word has_password) (rw database filled.0) (rw user filled.1)
        (rw host filled.2) (rw origin listed_only) in
    (
      record {
        settings = c;
        numbers = n;
        cors = cors_of (Config.getenv env "CORS_ORIGINS" "*");
        pool_created = true;
      },
      rw (live, numbers) (ap (λ v. start_of n v c) goes),
      host,
      user,
      database,
      ap cors_of origin,
    )

star_kept : origins_of (codes "*") ≡ (b'*' ∷ []) ∷ []
unfolding origins_of
star_kept = refl

blank_origins :
    (o : String) → origins_of (codes o) ≡ [] → (str_eq o "*" ≡ false) × (cors_of o ≡ everyone)
unfolding cors_of
blank_origins o h = elim (Bool-cases (str_eq o "*")) [
  | inl star ↦
      absurd (cc (subst (λ s. origins_of (codes s) ≡ []) ((str_eq_iff o "*").0 star) h, star_kept))
  | inr other ↦ (other, rw h)
]

-- Production also starts where CORS_ORIGINS holds nothing but commas and blanks, the empty text
-- included, and then lets every origin in, which the check for `*` is there to refuse. The signing
-- key and the password are set here, the numbers can be read, and the three other names of the
-- database are left out.
pub production_open :
    (python : Config.Python) (env : Config.Environ) (name : Option String) {k p o : String}
    {n : Config.Numbers}
    → Config.profile_of (python.lower (Config.chosen_name env name)) ≡ Config.production
    → env "JWT_SECRET_KEY" ≡ some k
    → str_eq k "" ≡ false
    → env "DB_PASSWORD" ≡ some p
    → str_eq p "" ≡ false
    → env "CORS_ORIGINS" ≡ some o
    → origins_of (codes o) ≡ []
    → env "DB_NAME" ≡ none
    → env "DB_USER" ≡ none
    → env "DB_HOST" ≡ none
    → Config.numbers_of python env ≡ some n
    → (app : Application) × (create_app python env name ≡ started app) × (app.cors ≡ everyone)
production_open python env name {o = o} {n = n} live secret has_secret password has_password origins
      blank no_name no_user no_host numbers =
    let (other, all_in) = blank_origins o blank in
    let (app, start, _, _, _, cors) =
      production_defaults python env name live secret has_secret password has_password origins other
        no_name no_user no_host numbers in
    (app, start, cors ∙ all_in)
