-- ===== src/Api/Schemas/Updates.antt =====
-- What the UPDATEs of the repositories make of a body that a schema has let pass: `fields` of `update`
-- is the loaded dict, and each of its keys becomes a column of the statement's text.
use mathlib.Core.Option
use corebank_api.Api.Schemas.{null, Value, Field, Schema, Dict, IsTaken, IsDeclared, one_of, string}
use corebank_api.Api.Schemas.Values.{
  filled_kind, as_named-IsTaken, as_optional, as_named, names, IsReadable, taken_kind,
}
use corebank_api.Prelude.{
  String, List, [], ◌∷◌, Option, some, none, ◌≡◌, false, All, map, refl, subst, inl, inr,
  if◌then◌else◌, str_eq,
}

module _ {A : Type 0} where
  -- How a column's new value is read, by the column's name.
  abbrev pub read_entry : List (String × (Value → Option A)) → String × Value → Option A
  read_entry [] entry = none
  read_entry ((name, read) ∷ rest) entry =
      if str_eq name entry.0 then read entry.1 else read_entry rest entry

  abbrev pub read_all : (String × Value → Option A) → Dict → Option (List A)
  read_all read [] = some []
  read_all read (entry ∷ rest) =
      Option.bind (read entry) λ a. Option.map (λ others. a ∷ others) (read_all read rest)

  module _ (read : String × Value → Option A) (column : A → String) where
    -- Every value that a field hands over is read, as a column of the field's name.
    pub record IsRead (f : Field) : Type 0 where
      pub at :
          (v : Value)
          → f.dump_only ≡ false
          → IsTaken f v
          → (a : A) × (read (f.name, v) ≡ some a) × (column a ≡ f.name)

    entry-IsRead :
        (s : Schema) (k : String) (v : Value)
        → All IsRead s
        → IsDeclared s (k, v)
        → (a : A) × (read (k, v) ≡ some a) × (column a ≡ k)
    entry-IsRead [] k v h declared = absurd declared
    entry-IsRead (f ∷ s) k v h (inl (name, open_field, taken)) =
        subst (λ k. (a : A) × (read (k, v) ≡ some a) × (column a ≡ k)) name
          (h.0.at v open_field taken)
    entry-IsRead (f ∷ s) k v h (inr rest) = entry-IsRead s k v h.1 rest

    pub dict-IsRead :
        (s : Schema) (d : Dict)
        → All IsRead s
        → All (IsDeclared s) d
        → (fields : List A) × (read_all read d ≡ some fields)
          × (map column fields ≡ map (λ e. e.0) d)
    unfolding Option.bind
    dict-IsRead s [] h declared = ([], refl, refl)
    dict-IsRead s ((k, v) ∷ rest) h declared =
        let (a, one, here) = entry-IsRead s k v h declared.0 in
        let (others, all_read, there) = dict-IsRead s rest h declared.1 in
        (a ∷ others, rw (one, all_read) refl, rw (here, there) refl)

    module _ {B : Type 0} (f : Field) (as_value : Value → Option B) (make : B → A) where
      pub strict-IsRead :
          IsReadable as_value f.kind
          → f.allow_none ≡ false
          → f.load_default ≡ none
          → ((v : Value) → read (f.name, v) ≡ Option.map make (as_value v))
          → ((b : B) → column (make b) ≡ f.name)
          → IsRead f
      strict-IsRead readable strict plain reads column_name = record {
        at = λ v open_field taken.
            let (b, e) = readable v (taken_kind f v strict plain taken).0 in
            (make b, rw (reads v, e) refl, column_name b);
      }

    module _ {B : Type 0} (f : Field) (as_value : Value → Option B) (make : Option B → A) where
      pub optional-IsRead :
          IsReadable as_value f.kind
          → f.load_default ≡ none
          → ((v : Value) → read (f.name, v) ≡ Option.map make (as_optional as_value v))
          → ((b : Option B) → column (make b) ≡ f.name)
          → IsRead f
      optional-IsRead readable plain reads column_name = record { at = go }
        where
          go :
              (v : Value)
              → f.dump_only ≡ false
              → IsTaken f v
              → (a : A) × (read (f.name, v) ≡ some a) × (column a ≡ f.name)
          go null open_field taken = (make none, reads null, column_name none)
          go v open_field taken =
              let (b, e) = readable v (filled_kind f v refl plain taken) in
              (make (some b), rw (reads v, e) refl, column_name (some b))

    pub named-IsRead :
        {B : Type 0} (f : Field) (table : List (String × B)) (make : B → A)
        → f.kind ≡ string
        → f.checks ≡ one_of (names table) ∷ []
        → f.allow_none ≡ false
        → f.load_default ≡ none
        → ((v : Value) → read (f.name, v) ≡ Option.map make (as_named table v))
        → ((b : B) → column (make b) ≡ f.name)
        → IsRead f
    named-IsRead f table make kind checks strict plain reads column_name = record {
      at = λ v open_field taken.
          let (of, passed) = taken_kind f v strict plain taken in
          let (b, e) = as_named-IsTaken table v (rw kind at of) (rw checks at passed) in
          (make b, rw (reads v, e) refl, column_name b);
    }
