-- ===== src/App.antt =====
-- app/__init__.py: the application factory, as far as it decides anything: whether the checks of the
-- configuration let it start, whom CORS lets in, and whether the pool is created at once. That
-- the creation of the pool fails for want of a server is left out.
pub mod Production
use corebank_api.Prelude.{none, some, map, [], ◌∷◌, ℕ, Option, codes, not, List, Bool, String}
use corebank_api.Config
use corebank_api.PyText.{is_empty, strip, split}
use corebank_api.Database.Rows.{select}

-- The `origins` that CORS is given: a list, or `"*"`.
pub data Origins : Type 0 where
  listed : List (List ℕ) → Origins
  everyone : Origins

-- `origins or "*"`
abbrev pub or_everyone : List (List ℕ) → Origins
or_everyone [] = everyone
or_everyone (o ∷ os) = listed (o ∷ os)

-- `[o.strip() for o in config.CORS_ORIGINS.split(",") if o.strip()]`
unfoldable pub origins_of : List ℕ → List (List ℕ)
unfolding split strip
origins_of text = select (λ o. not (is_empty o)) (map strip (split b',' text))

unfoldable pub cors_of : String → Origins
unfolding origins_of
cors_of text = or_everyone (origins_of (codes text))

-- What `create_app` has set up, unless it refuses to start.
pub record Application : Type 0 where
  pub settings : Config.Settings
  pub numbers : Config.Numbers
  pub cors : Origins
  pub pool_created : Bool

pub data Start : Type 0 where
  started : Application → Start
  stopped : Config.Verdict → Start
  not_imported : Start

abbrev pub start_of : Config.Numbers → Config.Verdict → Config.Settings → Start
start_of n Config.accepted c = started (record {
  settings = c;
  numbers = n;
  cors = cors_of c.cors_origins;
  pool_created = not c.is_testing;
})
start_of n verdict c = stopped verdict

-- `get_config` and the rest of `create_app`
abbrev pub start_with : Config.Verdict × Config.Settings → Option Config.Numbers → Start
start_with (verdict, c) none = not_imported
start_with (verdict, c) (some n) = start_of n verdict c

unfoldable pub create_app : Config.Python → Config.Environ → Option String → Start
unfolding cors_of Config.get_config Config.numbers_of
create_app python env name =
    start_with (Config.get_config python env name) (Config.numbers_of python env)
