-- ===== src/Services/Helpers.antt =====
-- app/services/_helpers.py, beside `integrity_guard`, which stands with the unit of work: the
-- principal of a request and the ownership check.
use corebank_api.Prelude.{
  String, Bool, true, false, not, ◌||◌, Option, none, some, str_eq, if◌then◌else◌,
}
use corebank_api.Errors.{Exception, app, forbidden, Result, ok, err}
use corebank_api.Database.Schema.{Role, admin}

-- The dict that `current_user` of app/security/auth.py returns.
pub record Actor : Type 0 where
  pub user_id : String
  pub role : Option Role
  pub customer_id : Option String

-- `actor.get("role") == ADMIN`
unfoldable pub is_admin : Actor → Bool
is_admin a = elim a.role [ some admin ↦ true | _ ↦ false ]

abbrev pub own_test : Option String → String → Bool
own_test none id = false
own_test (some own) id = str_eq own id

-- `actor.get("customer_id") == customer_id`
unfoldable pub owns : Actor → Option String → Bool
unfolding str_eq
owns a none = elim a.customer_id [ none ↦ true | some _ ↦ false ]
owns a (some id) = own_test a.customer_id id

-- `not customer_id`
unfoldable pub is_blank : Option String → Bool
unfolding str_eq
is_blank none = true
is_blank (some id) = str_eq id ""

abbrev pub no_access : Exception
no_access = app forbidden "You do not have access to this resource"

unfoldable pub ensure_owner_or_admin : Actor → Option String → Result (Unit {0})
unfolding is_admin is_blank owns
ensure_owner_or_admin actor customer_id =
    if is_admin actor
    then ok tt
    else if is_blank customer_id || not (owns actor customer_id)
    then err no_access
    else ok tt
