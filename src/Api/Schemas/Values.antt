-- ===== src/Api/Schemas/Values.antt =====
-- What a value is that a schema's field has taken.
use mathlib.Core.Option
use corebank_api.Api.Schemas.{
  is_choice, is_null, one_of, Value, null, text, hundredths, truth, moment, Kind, string, email,
  decimal, boolean, date, date_time, Field, of_kind, passes_all, IsTaken,
}
use corebank_api.Prelude.{
  str_eq, if◌then◌else◌, Bool-cases, [], ◌∷◌, List, ℕ, ℤ, String, Bool, true, false, ◌≡◌, inl, inr,
  refl, Option, none, some, arith,
}

abbrev pub as_text : Value → Option String
as_text (text s) = some s
as_text _ = none

-- `None` or a text
abbrev pub as_optional : {A : Type 0} → (Value → Option A) → Value → Option (Option A)
as_optional read null = some none
as_optional read v = Option.map some (read v)

abbrev pub as_hundredths : Value → Option ℤ
as_hundredths (hundredths z) = some z
as_hundredths _ = none

abbrev pub as_truth : Value → Option Bool
as_truth (truth b) = some b
as_truth _ = none

abbrev pub as_moment : Value → Option ℕ
as_moment (moment n) = some n
as_moment _ = none

-- Whether the values of a kind are all read.
abbrev pub IsReadable : {A : Type 0} → (Value → Option A) → Kind → Type 0
IsReadable {A} read kind = (v : Value) → of_kind kind v ≡ true → (a : A) × (read v ≡ some a)

pub string-IsReadable : IsReadable as_text string
string-IsReadable (text s) e = (s, refl)
string-IsReadable null e = cc e
string-IsReadable _ e = cc e

pub email-IsReadable : IsReadable as_text email
email-IsReadable (text s) e = (s, refl)
email-IsReadable null e = cc e
email-IsReadable _ e = cc e

pub decimal-IsReadable : IsReadable as_hundredths decimal
decimal-IsReadable (hundredths z) e = (z, refl)
decimal-IsReadable null e = cc e
decimal-IsReadable _ e = cc e

pub boolean-IsReadable : IsReadable as_truth boolean
boolean-IsReadable (truth b) e = (b, refl)
boolean-IsReadable null e = cc e
boolean-IsReadable _ e = cc e

pub date-IsReadable : IsReadable as_moment date
date-IsReadable (moment n) e = (n, refl)
date-IsReadable null e = cc e
date-IsReadable _ e = cc e

pub date_time-IsReadable : IsReadable as_moment date_time
date_time-IsReadable (moment n) e = (n, refl)
date_time-IsReadable null e = cc e
date_time-IsReadable _ e = cc e

-- A field without a default that takes no None hands over a value of its kind.
pub taken_kind :
    (f : Field) (v : Value)
    → f.allow_none ≡ false
    → f.load_default ≡ none
    → IsTaken f v
    → (of_kind f.kind v ≡ true) × (passes_all v f.checks ≡ true)
taken_kind f null strict plain (inl e) = cc (e, strict)
taken_kind f null strict plain (inr e) = cc (e, plain)
taken_kind f v strict plain (inl e) = (ground arith, ground arith)
taken_kind f v strict plain (inr e) = cc (e, plain)

-- The member of an enumeration that a text names.
abbrev pub named : {A : Type 0} → List (String × A) → String → Option A
named [] s = none
named ((name, a) ∷ rest) s = if str_eq s name then some a else named rest s

abbrev pub as_named : {A : Type 0} → List (String × A) → Value → Option A
as_named table (text s) = named table s
as_named table _ = none

abbrev pub names : {A : Type 0} → List (String × A) → List String
names [] = []
names ((name, _) ∷ rest) = name ∷ names rest

pub named-is_choice :
    {A : Type 0} (table : List (String × A)) (s : String)
    → is_choice (names table) s ≡ true
    → (a : A) × (named table s ≡ some a)
named-is_choice [] s e = cc e
named-is_choice ((name, a) ∷ rest) s e = elim (Bool-cases (str_eq s name)) [
  | inl here ↦ (a, rw here refl)
  | inr there ↦ let (b, found) = named-is_choice rest s (ground arith) in (b, rw there found)
]

pub as_named-IsTaken :
    {A : Type 0} (table : List (String × A)) (v : Value)
    → of_kind string v ≡ true
    → passes_all v (one_of (names table) ∷ []) ≡ true
    → (a : A) × (as_named table v ≡ some a)
as_named-IsTaken table (text s) e passed = named-is_choice table s (ground arith)
as_named-IsTaken table null e passed = cc e
as_named-IsTaken table _ e passed = cc e

-- A field that takes None hands over None or a value of its kind.
pub filled_kind :
    (f : Field) (v : Value)
    → is_null v ≡ false
    → f.load_default ≡ none
    → IsTaken f v
    → of_kind f.kind v ≡ true
filled_kind f null filled plain taken = cc filled
filled_kind f v filled plain (inl e) = ground arith
filled_kind f v filled plain (inr e) = cc (e, plain)
