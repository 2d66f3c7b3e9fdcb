-- ===== src/Api/Schemas.antt =====
-- The vocabulary of the marshmallow schemas of app/api. A schema is data here, as the blueprints
-- declare it; what marshmallow makes of one, `load` of a request's body, is a parameter.
pub mod Accounts
pub mod Auth
pub mod Branches
pub mod Cards
pub mod CreditScores
pub mod Customers
pub mod CustomerSupport
pub mod Employees
pub mod LoanPayments
pub mod Loans
pub mod Transactions
pub mod Users
pub mod Values
pub mod Updates
pub mod Created
pub mod Records
pub mod Given
pub mod Columns
use corebank_api.Prelude.{
  ℕ, ℤ, pos, String, Bool, true, false, ◌||◌, ◌&&◌, ◌==◌, leb, ltb_ℤ, str_eq, Option, none, some,
  List, [], ◌∷◌, ◌≡◌, ◌⊎◌, All, if◌then◌else◌,
}
use corebank_api.Repositories.Cards.{text_length}

-- A value of a body after its deserialization; a decimal of two places in hundredths.
pub data Value : Type 0 where
  null : Value
  text : String → Value
  number : ℤ → Value
  hundredths : ℤ → Value
  truth : Bool → Value
  moment : ℕ → Value

-- The classes of `marshmallow.fields`.
pub data Kind : Type 0 where
  string email integer decimal boolean date date_time : Kind

-- The validators of `marshmallow.validate`.
pub data Check : Type 0 where
  longest shortest exact : ℕ → Check
  one_of : List String → Check
  above_zero from_zero : Check

pub record Field : Type 0 where
  pub name : String
  pub kind : Kind
  pub required : Bool
  pub dump_only : Bool
  pub load_only : Bool
  pub allow_none : Bool
  pub load_default : Option Value
  pub checks : List Check

abbrev pub Schema : Type 0
Schema = List Field

-- `name = fields.Kind()`
abbrev pub field : Kind → String → Field
field kind name = record {
  name = name;
  kind = kind;
  required = false;
  dump_only = false;
  load_only = false;
  allow_none = false;
  load_default = none;
  checks = [];
}

-- `fields.Decimal(places=2, as_string=True)`, and `money` of app/api/_fields.py
abbrev pub money : String → Field
money name = field decimal name

-- The keyword arguments.
abbrev pub required : Field → Field
required f = record f { required = true }

abbrev pub dump_only : Field → Field
dump_only f = record f { dump_only = true }

abbrev pub load_only : Field → Field
load_only f = record f { load_only = true }

abbrev pub allow_none : Field → Field
allow_none f = record f { allow_none = true }

abbrev pub validate : List Check → Field → Field
validate cs f = record f { checks = cs }

abbrev pub is_null : Value → Bool
is_null null = true
is_null _ = false

-- A default of None lets None in.
abbrev pub load_default : Value → Field → Field
load_default v f = record f { load_default = some v; allow_none = f.allow_none || is_null v }

abbrev pub is_choice : List String → String → Bool
is_choice [] s = false
is_choice (x ∷ xs) s = str_eq s x || is_choice xs s

abbrev pub of_kind : Kind → Value → Bool
of_kind string (text _) = true
of_kind email (text _) = true
of_kind integer (number _) = true
of_kind decimal (hundredths _) = true
of_kind boolean (truth _) = true
of_kind date (moment _) = true
of_kind date_time (moment _) = true
of_kind _ _ = false

abbrev pub passes : Value → Check → Bool
passes (text s) (longest n) = leb (text_length s) n
passes (text s) (shortest n) = leb n (text_length s)
passes (text s) (exact n) = text_length s == n
passes (text s) (one_of names) = is_choice names s
passes (hundredths z) above_zero = ltb_ℤ (pos 0) z
passes (number z) from_zero = if ltb_ℤ z (pos 0) then false else true
passes _ _ = true

abbrev pub passes_all : Value → List Check → Bool
passes_all v [] = true
passes_all v (c ∷ cs) = passes v c && passes_all v cs

-- Whether a field takes a value.
abbrev pub fits : Field → Value → Bool
fits f null = f.allow_none
fits f v = of_kind f.kind v && passes_all v f.checks

-- What a body is loaded to.
abbrev pub Dict : Type 0
Dict = List (String × Value)

abbrev pub lookup : String → Dict → Option Value
lookup k [] = none
lookup k ((name, v) ∷ rest) = if str_eq name k then some v else lookup k rest

abbrev pub is_some : {A : Type 0} → Option A → Bool
is_some none = false
is_some (some _) = true

-- A value that `load` may hand over for a field: a default is not validated.
abbrev pub IsTaken : Field → Value → Type 0
IsTaken f v = (fits f v ≡ true) ⊎ (f.load_default ≡ some v)

-- An entry for a field of the schema that is not `dump_only`.
abbrev pub IsDeclared : Schema → String × Value → Type 0
IsDeclared [] entry = ⊥
IsDeclared (f ∷ s) entry =
    ((f.name ≡ entry.0) × (f.dump_only ≡ false) × IsTaken f entry.1) ⊎ IsDeclared s entry

-- What is there for a field: for one that is required or has a default, a value.
pub record IsGiven (d : Dict) (f : Field) : Type 0 where
  pub needed :
      f.dump_only ≡ false
      → (f.required || is_some f.load_default) ≡ true
      → (v : Value) × (lookup f.name d ≡ some v)
  pub taken : f.dump_only ≡ false → (v : Value) → lookup f.name d ≡ some v → IsTaken f v

-- marshmallow, as `blp.arguments` uses it; none where a body is answered 422.
pub record Loader : Type 1 where
  pub Json : Type 0
  pub load : Schema → Json → Option Dict

-- Its documented behaviour: unknown and `dump_only` fields are refused, required ones are there, a
-- missing field has its default, and every value has its field's type and has passed its validators.
pub record IsMarshmallow (l : Loader) : Type 0 where
  pub known :
      (s : Schema) (body : l.Json) (d : Dict) → l.load s body ≡ some d → All (IsDeclared s) d
  pub given : (s : Schema) (body : l.Json) (d : Dict) → l.load s body ≡ some d → All (IsGiven d) s
