-- ===== src/Tests/Startup.antt =====
-- Runs of the migrations and starts of the application, at inputs that meet the hypotheses of their
-- theorems.
use mathlib.Core.Option
use corebank_api.Database.Engine.{same}
use corebank_api.Tests.Bank.{mysql}
use corebank_api.Config
use corebank_api.App.{create_app, Application, started, cors_of, origins_of, everyone}
use corebank_api.App.Production.{HasValue, production_is_set, production_defaults, production_open}
use corebank_api.Scripts.Migrate.{statements, Server, File, Store, run_migrations, in_order}
use corebank_api.Scripts.Migrate.Applied.{pending, run_migrations_records, run_migrations_idem}
use corebank_api.Scripts.Migrate.Order.{IsSorted}
use corebank_api.Scripts.Migrate.Failed.{StopsIn, run_migrations_stops}
use corebank_api.Scripts.Migrate.Clean.{IsClean, statements-IsClean}
use corebank_api.Prelude.{
  pos, ◌+◌, map, [], ◌∷◌, false, refl, ◌++◌, none, length, codes, if◌then◌else◌, some, ℕ, true, ◌≡◌,
  All, List, String, str_eq,
}
use corebank_api.Errors.{operational_error, db_error, err, ok}
use corebank_api.PyText.{starts_with}

-- A server that keeps the statements that it was sent.
abbrev keeper : Server (List (List ℕ))
keeper = record { execute = λ stmt s. (ok tt, s ++ stmt ∷ []) }

abbrev folder : List File
folder =
    record { stem = "002_indexes"; text = codes "-- b\nCREATE INDEX i;" }
    ∷ record { stem = "001_schema"; text = codes "CREATE TABLE a;\n\nCREATE TABLE b;\n" }
    ∷ []

abbrev empty_store : Store (List (List ℕ))
empty_store = record { state = []; versions = [] }

abbrev filled_store : Store (List (List ℕ))
filled_store = record {
  state = codes "CREATE TABLE a" ∷ codes "CREATE TABLE b" ∷ codes "CREATE INDEX i" ∷ [];
  versions = "001_schema" ∷ "002_indexes" ∷ [];
}

run_test : run_migrations keeper folder empty_store ≡ (ok 2, filled_store)
unfolding run_migrations same
run_test = refl

run_migrations_records_example :
    (2 ≡ length (pending [] (in_order folder)))
    × (filled_store.versions ≡ [] ++ map (λ (f : File). f.stem) (pending [] (in_order folder)))
run_migrations_records_example =
    run_migrations_records keeper folder empty_store filled_store 2 run_test

run_migrations_idem_example : run_migrations keeper folder filled_store ≡ (ok 0, filled_store)
run_migrations_idem_example = run_migrations_idem keeper folder empty_store filled_store 2 run_test

statements-IsClean_example : All IsClean (statements (codes " a ; -- b\n;c"))
statements-IsClean_example = statements-IsClean (codes " a ; -- b\n;c")

-- Lower case and numbers, as far as the texts here need them.
abbrev python : Config.Python
python = record {
  lower = λ s. s;
  int = λ s.
      if str_eq s "3306"
      then some (pos 3306)
      else if str_eq s "5"
      then some (pos 5)
      else some (pos 1);
}

abbrev set : String → String → Config.Environ → Config.Environ
set name value env asked = if str_eq asked name then some value else env asked

-- An environment for production with these CORS origins.
abbrev machine : String → Config.Environ
machine origins =
    set "JWT_SECRET_KEY" "k" (set "DB_PASSWORD" "p" (set "CORS_ORIGINS" origins (λ name. none)))

abbrev default_numbers : Config.Numbers
default_numbers = record { token_hours = pos 1; db_port = pos 3306; db_pool_size = pos 5 }

abbrev app_of : String → Application
app_of origins = record {
  settings = Config.settings_of (machine origins) Config.production;
  numbers = default_numbers;
  cors = cors_of origins;
  pool_created = true;
}

live :
    Config.profile_of
      (python.lower (Config.chosen_name (machine "https://a.example") (some "production")))
    ≡ Config.production
unfolding Config.profile_of Config.chosen_name str_eq
live = refl

live_blank :
    Config.profile_of (python.lower (Config.chosen_name (machine " ,") (some "production")))
    ≡ Config.production
unfolding Config.profile_of Config.chosen_name str_eq
live_blank = refl

start_test :
    create_app python (machine "https://a.example") (some "production")
    ≡ started (app_of "https://a.example")
unfolding create_app Config.get_config Config.settings_of Config.validate Config.secret_of
    Config.getenv Config.profile_of Config.chosen_name Config.numbers_of str_eq Option.bind
start_test = refl

production_is_set_example :
    HasValue (machine "https://a.example") "JWT_SECRET_KEY"
    × HasValue (machine "https://a.example") "DB_PASSWORD"
    × (v : String) × (machine "https://a.example" "CORS_ORIGINS" ≡ some v)
    × (str_eq v "*" ≡ false)
production_is_set_example =
    production_is_set python (machine "https://a.example") (some "production")
      (app_of "https://a.example") live start_test

production_defaults_example :
    (app : Application) × (create_app python (machine "https://a.example") (some "production")
      ≡ started app)
    × (app.settings.db_host ≡ "localhost")
    × (app.settings.db_user ≡ "root")
    × (app.settings.db_name ≡ "bank")
    × (app.cors ≡ cors_of "https://a.example")
unfolding str_eq Config.numbers_of Config.getenv Option.bind
production_defaults_example =
    production_defaults python (machine "https://a.example") (some "production") {k = "k"} {p = "p"}
      {o = "https://a.example"} {n = default_numbers} live refl refl refl refl refl refl refl refl
      refl refl

production_open_example :
    (app : Application) × (create_app python (machine " ,") (some "production") ≡ started app)
    × (app.cors ≡ everyone)
unfolding str_eq origins_of Config.numbers_of Config.getenv Option.bind
production_open_example =
    production_open python (machine " ,") (some "production") {k = "k"} {p = "p"} {o = " ,"}
      {n = default_numbers} live_blank refl refl refl refl refl refl refl refl refl refl

-- A server that refuses what begins with `x`.
abbrev strict : Server ℕ
strict = record {
  execute = λ stmt n.
      if starts_with b'x' stmt then (err (db_error operational_error 1064), n) else (ok tt, n + 1);
}

abbrev broken : List File
broken =
    record { stem = "002_b"; text = codes "b;x" } ∷ record { stem = "001_a"; text = codes "a" } ∷ []

stop_test :
    run_migrations strict broken (record { state = 0; versions = [] })
    ≡ (err (db_error operational_error 1064), record { state = 2; versions = "001_a" ∷ [] })
unfolding run_migrations same
stop_test = refl

run_migrations_stops_example :
    (ordered : List File) × IsSorted broken ordered
    × StopsIn strict
        (pending [] ordered)
        (record { state = 0; versions = [] })
        (db_error operational_error 1064)
        (record { state = 2; versions = "001_a" ∷ [] })
run_migrations_stops_example =
    run_migrations_stops strict broken (record { state = 0; versions = [] })
      (record { state = 2; versions = "001_a" ∷ [] }) (db_error operational_error 1064) stop_test
