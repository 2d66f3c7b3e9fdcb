-- ===== src/Api/Schemas/Records.antt =====
-- The rows that a body creates: the `record` that `create` of a service makes of the loaded dict, and
-- the parameters that the INSERT of its repository names.
use corebank_api.Api.Schemas.Branches.{branch_schema}
use corebank_api.Api.Schemas.Cards.{card_create_schema}
use corebank_api.Api.Schemas.CreditScores.{credit_score_schema}
use corebank_api.Api.Schemas.Customers.{customer_schema}
use corebank_api.Api.Schemas.Employees.{employee_schema}
use corebank_api.Api.Schemas.Loans.{loan_schema}
use corebank_api.Api.Schemas.LoanPayments.{loan_payment_create_schema}
use corebank_api.Api.Schemas.{
  null, text, truth, number, moment, Schema, Dict, lookup, Loader, IsMarshmallow, IsDeclared,
  IsGiven,
}
use corebank_api.Api.Schemas.Created.{
  payload, branch_record, branch_columns, card_record, card_columns, credit_score_record,
  credit_score_columns, customer_record, customer_columns, employee_record, employee_columns,
  loan_record, loan_columns, loan_payment_record, loan_payment_columns,
}
use corebank_api.Api.Schemas.Given.{
  Has, setdefaults, is_given, is_filled, is_open, is_key, given-Has, filled-Has,
  lookup-without_none, lookup-without_none_missing, lookup-append, lookup-append_last,
  lookup-missing, lookup-setdefaults, setdefaults-Has, either,
}
use corebank_api.Prelude.{
  inl, inr, sym, ◌∙◌, ◌&&◌, arith, ℕ, String, Bool, true, false, ◌||◌, List, [], ◌∷◌, ◌++◌, ◌≡◌,
  All, some, none, refl, pos, str_eq, str_eq_iff, subst,
}

pub data Resource : Type 0 where
  branch card credit_score customer employee loan loan_payment : Resource

-- The schema that `blp.arguments` names above `post`.
abbrev pub create_schema : Resource → Schema
create_schema branch = branch_schema
create_schema card = card_create_schema
create_schema credit_score = credit_score_schema
create_schema customer = customer_schema
create_schema employee = employee_schema
create_schema loan = loan_schema
create_schema loan_payment = loan_payment_create_schema

-- What `post` hands to `create`.
unfoldable body_of : Resource → Dict → Dict
unfolding payload
body_of loan_payment d = payload d
body_of _ d = d

abbrev pub key_column : Resource → String
key_column branch = "branch_id"
key_column card = "card_id"
key_column credit_score = "credit_score_id"
key_column customer = "customer_id"
key_column employee = "employee_id"
key_column loan = "loan_id"
key_column loan_payment = "loan_payment_id"

-- The calls of `setdefault`, in their order.
abbrev pub defaults : Resource → ℕ → Dict
defaults branch now = ("address_line2", null) ∷ []
defaults credit_score now = ("computed_by_system", truth true) ∷ []
defaults customer now = ("address_line2", null) ∷ ("wage_declaration", number (pos 0)) ∷ []
defaults loan now = ("status", text "ACTIVE") ∷ []
defaults loan_payment now = ("payment_date", moment now) ∷ ("remaining_balance", null) ∷ []
defaults _ now = []

-- The row that `post` and `create` have for the INSERT.
unfoldable pub record_of : Resource → String → ℕ → Dict → Dict
unfolding payload branch_record card_record credit_score_record customer_record employee_record
    loan_record loan_payment_record
record_of loan_payment id now d = loan_payment_record id now (payload d)
record_of branch id now d = branch_record id d
record_of card id now d = card_record id d
record_of credit_score id now d = credit_score_record id d
record_of customer id now d = customer_record id d
record_of employee id now d = employee_record id d
record_of loan id now d = loan_record id d

record_of_lem :
    (r : Resource) (id : String) (now : ℕ) (d : Dict)
    → setdefaults (defaults r now) (body_of r d ++ (key_column r, text id) ∷ [])
      ≡ record_of r id now d
unfolding record_of setdefaults body_of
record_of_lem branch id now d = refl
record_of_lem _ id now d = refl

-- The names of the INSERT.
abbrev pub columns : Resource → List String
columns branch = branch_columns
columns card = card_columns
columns credit_score = credit_score_columns
columns customer = customer_columns
columns employee = employee_columns
columns loan = loan_columns
columns loan_payment = loan_payment_columns

-- Where a column comes from: from the body, from the new id or from a default.
is_due : Resource → String → Bool
is_due loan_payment k = is_filled loan_payment_create_schema k
is_due r k = is_given (create_schema r) k

abbrev is_covered : Resource → String → Bool
is_covered r k = is_due r k || (str_eq (key_column r) k || is_key (defaults r 0) k)

abbrev all_covered : Resource → List String → Bool
all_covered r [] = true
all_covered r (k ∷ ks) = is_covered r k && all_covered r ks

columns_covered : (r : Resource) → all_covered r (columns r) ≡ true
unfolding is_due str_eq
columns_covered branch = refl
columns_covered _ = refl

key_closed : (r : Resource) → is_open (create_schema r) (key_column r) ≡ false
unfolding str_eq
key_closed branch = refl
key_closed _ = refl

is_key-defaults :
    (r : Resource) (now : ℕ) (k : String) → is_key (defaults r 0) k ≡ is_key (defaults r now) k
is_key-defaults branch now k = refl
is_key-defaults _ now k = refl

body-Has :
    (r : Resource) (d : Dict) (k : String)
    → All (IsGiven d) (create_schema r)
    → is_due r k ≡ true
    → Has k (body_of r d)
unfolding body_of is_due payload
body-Has loan_payment d k h due =
    let (v, found, filled) = filled-Has loan_payment_create_schema k d h due in
    (v, lookup-without_none k d found filled)
body-Has r d k h due = given-Has (create_schema r) k d h due

lookup-body_of :
    (r : Resource) (d : Dict) (k : String) → lookup k d ≡ none → lookup k (body_of r d) ≡ none
unfolding body_of payload
lookup-body_of loan_payment d k missing = lookup-without_none_missing k d missing
lookup-body_of r d k missing = missing

module _ (r : Resource) (id : String) (now : ℕ) (d : Dict)
    (declared : All (IsDeclared (create_schema r)) d)
    (given : All (IsGiven d) (create_schema r)) where
  lookup-key : lookup (key_column r) (record_of r id now d) ≡ some (text id)
  lookup-key =
      subst (λ row. lookup (key_column r) row ≡ some (text id)) (record_of_lem r id now d)
        (lookup-setdefaults (key_column r) (defaults r now) _ (
          lookup-append_last (key_column r) (body_of r d) (text id) (
            lookup-body_of r d (key_column r)
              (lookup-missing (create_schema r) (key_column r) d (key_closed r) declared))))

  column-Has : (k : String) → is_covered r k ≡ true → Has k (record_of r id now d)
  column-Has k covered = elim (either (is_due r k) _ covered) [
    | inl due ↦
        let (v, found) = body-Has r d k given due in
        subst (Has k) (record_of_lem r id now d) (
          v,
          lookup-setdefaults k (defaults r now) _
              (lookup-append k (body_of r d) ((key_column r, text id) ∷ []) found),
        )
    | inr other ↦ elim (either (str_eq (key_column r) k) _ other) [
      | inl is_id ↦
          subst (λ k. Has k (record_of r id now d)) ((str_eq_iff (key_column r) k).0 is_id)
            (text id, lookup-key)
      | inr late ↦ subst (Has k) (record_of_lem r id now d) (
          setdefaults-Has k (defaults r now) (body_of r d ++ (key_column r, text id) ∷ [])
            (sym (is_key-defaults r now k) ∙ late))
    ]
  ]

  columns-Has :
      (ks : List String) → all_covered r ks ≡ true → All (λ k. Has k (record_of r id now d)) ks
  columns-Has [] covered = tt
  columns-Has (k ∷ ks) covered = (column-Has k (ground arith), columns-Has ks (ground arith))

-- Whatever body the loader lets pass for a new row, the record that `create` builds has a value for
-- each column that the INSERT names, and its key is the new id, whatever the body said.
pub load-record_of :
    (r : Resource) (l : Loader) (body : l.Json) (d : Dict) (id : String) (now : ℕ)
    → IsMarshmallow l
    → l.load (create_schema r) body ≡ some d
    → All (λ k. Has k (record_of r id now d)) (columns r)
      × (lookup (key_column r) (record_of r id now d) ≡ some (text id))
load-record_of r l body d id now h loaded =
    let declared = h.known (create_schema r) body d loaded in
    let given = h.given (create_schema r) body d loaded in
    (
      columns-Has r id now d declared given (columns r) (columns_covered r),
      lookup-key r id now d declared given,
    )
