-- ===== src/Tests/Bodies.antt =====
-- A loader that takes a body as it is or refuses it, and the theorems about loaded bodies.
use corebank_api.Api.Schemas.{
  Value, null, text, Field, Schema, Dict, lookup, fits, is_some, IsDeclared, IsGiven, Loader,
  IsMarshmallow,
}
use corebank_api.Api.Schemas.Given.{Has, either}
use corebank_api.Repositories.Customers
use corebank_api.Api.Schemas.Records
use corebank_api.Api.Schemas.Columns.{
  load-columns, customers, update_schema, columns, column, key_column,
}
use corebank_api.Api.Schemas.Updates.{read_all, read_entry}
use corebank_api.Api.Schemas.Records.{load-record_of, branch, create_schema, record_of}
use corebank_api.Prelude.{
  subst, String, Bool, true, false, not, ◌&&◌, ◌||◌, Option, none, some, List, [], ◌∷◌, ◌≡◌, All,
  map, refl, inl, inr, str_eq, str_eq_iff, if◌then◌else◌, arith,
}
use corebank_api.Repositories.Cards.{text_length}

abbrev is_declared : Schema → String × Value → Bool
is_declared [] entry = false
is_declared (f ∷ s) entry =
    (str_eq f.name entry.0 && (not f.dump_only && fits f entry.1)) || is_declared s entry

abbrev all_declared : Schema → Dict → Bool
all_declared s [] = true
all_declared s (entry ∷ rest) = is_declared s entry && all_declared s rest

abbrev answers : Field → Option Value → Bool
answers f none = f.dump_only || not (f.required || is_some f.load_default)
answers f (some v) = f.dump_only || fits f v

abbrev is_complete : Schema → Dict → Bool
is_complete [] d = true
is_complete (f ∷ s) d = answers f (lookup f.name d) && is_complete s d

abbrev strict : Loader
strict = record {
  Json = Dict;
  load = λ s d. if all_declared s d && is_complete s d then some d else none;
}

is_declared_lem :
    (s : Schema) (k : String) (v : Value) → is_declared s (k, v) ≡ true → IsDeclared s (k, v)
is_declared_lem [] k v e = cc e
is_declared_lem (f ∷ s) k v e = elim (either _ (is_declared s (k, v)) e) [
  | inl here ↦
      let name : str_eq f.name k ≡ true = ground arith in
      inl ((str_eq_iff f.name k).0 name, ground arith, inl (ground arith))
  | inr there ↦ inr (is_declared_lem s k v there)
]

all_declared_lem : (s : Schema) (d : Dict) → all_declared s d ≡ true → All (IsDeclared s) d
all_declared_lem s [] e = tt
all_declared_lem s ((k, v) ∷ rest) e =
    (is_declared_lem s k v (ground arith), all_declared_lem s rest (ground arith))

answered :
    (f : Field) (d : Dict) (o : Option Value)
    → lookup f.name d ≡ o
    → answers f o ≡ true
    → IsGiven d f
answered f d none missing e = record {
  needed = λ open_field due. absurd (ground arith);
  taken = λ open_field v found. cc (missing, found);
}
answered f d (some w) found e = record {
  needed = λ open_field due. (w, found);
  taken = λ open_field v also. inl (
      let one : w ≡ v = cc (found, also) in
      let fine : fits f w ≡ true = ground arith in subst (λ v. fits f v ≡ true) one fine);
}

is_complete_lem : (s : Schema) (d : Dict) → is_complete s d ≡ true → All (IsGiven d) s
is_complete_lem [] d e = tt
is_complete_lem (f ∷ s) d e =
    (answered f d (lookup f.name d) refl (ground arith), is_complete_lem s d (ground arith))

both_pass :
    (a b : Bool) (d : Dict) {loaded : Dict}
    → (if a && b then some d else none) ≡ some loaded
    → (a ≡ true) × (b ≡ true) × (d ≡ loaded)
both_pass true true d e = (refl, refl, cc e)
both_pass true false d e = cc e
both_pass false b d e = cc e

strict-IsMarshmallow : IsMarshmallow strict
strict-IsMarshmallow = record {
  known = λ s d loaded e.
      let (declared, complete, one) = both_pass (all_declared s d) (is_complete s d) d e in
      subst (All (IsDeclared s)) one (all_declared_lem s d declared);
  given = λ s d loaded e.
      let (declared, complete, one) = both_pass (all_declared s d) (is_complete s d) d e in
      subst (λ d. All (IsGiven d) s) one (is_complete_lem s d complete);
}

abbrev move : Dict
move = ("city", text "Paris") ∷ ("address_line2", null) ∷ []

move_test : strict.load (update_schema customers) move ≡ some move
unfolding str_eq
move_test = refl

load-columns_example :
    (fields : List Customers.Assignment) × (read_all (read_entry (columns customers)) move
      ≡ some fields)
    × (map (column customers) fields ≡ map (λ e. e.0) move)
    × All (λ a. str_eq (column customers a) (key_column customers) ≡ false) fields
load-columns_example = load-columns customers strict move move strict-IsMarshmallow move_test

abbrev office : Dict
office =
    ("branch_name", text "Main")
    ∷ ("address_line1", text "1 Main St")
    ∷ ("city", text "London")
    ∷ ("zip_code", text "W1")
    ∷ ("phone_number", text "020")
    ∷ []

office_test : strict.load (create_schema branch) office ≡ some office
unfolding str_eq text_length
office_test = refl

load-record_of_example :
    All (λ k. Has k (record_of branch "b7" 3 office)) (Records.columns branch)
    × (lookup "branch_id" (record_of branch "b7" 3 office) ≡ some (text "b7"))
load-record_of_example =
    load-record_of branch strict office office "b7" 3 strict-IsMarshmallow office_test

-- a body that names the key is refused
key_test : strict.load (create_schema branch) (("branch_id", text "b7") ∷ office) ≡ none
unfolding str_eq text_length
key_test = refl
