-- ===== src/Database/Constraints.antt =====
-- The tests that the constraints of migrations/001_initial_schema.sql are made of.
use corebank_api.Prelude.{
  ℕ, ◌^◌, String, Bool, false, not, ◌&&◌, ◌||◌, Option, none, some, List, [], ◌∷◌, ℤ, pos, pos_part,
  neg_part, ltb_ℤ, leb, if◌then◌else◌,
}
use corebank_api.Database.Engine.{Engine, same}
use corebank_api.Database.Rows.{exists}

abbrev pub first_violation : List (Bool × ℕ) → Option ℕ
first_violation [] = none
first_violation ((test, n) ∷ rest) = if test then some n else first_violation rest

-- DECIMAL(digits, 2) holds fewer than 10 ^ digits hundredths on either side of zero.
abbrev pub exceeds : ℕ → ℤ → Bool
exceeds digits x = leb (10 ^ digits) (pos_part x) || leb (10 ^ digits) (neg_part x)

abbrev pub is_negative : ℤ → Bool
is_negative x = ltb_ℤ x (pos 0)

abbrev pub is_positive : ℤ → Bool
is_positive x = ltb_ℤ (pos 0) x

-- A CHECK is not violated by NULL.
abbrev pub nullable : {A : Type 0} → (A → Bool) → Option A → Bool
nullable p none = false
nullable p (some a) = p a

module _ ⦃e : Engine⦄ where
  -- a row with this value in the column
  abbrev pub holds : {R : Type 0} → (R → String) → String → List R → Bool
  holds col value rows = exists (λ r. same (col r) value) rows

  -- another row with the new row's value in a UNIQUE column
  abbrev pub clashes : {R : Type 0} → (R → String) → (R → String) → R → List R → Bool
  clashes key col new rows =
      exists (λ r. not (same (key r) (key new)) && same (col r) (col new)) rows

  abbrev pub refers : String → Option String → Bool
  refers id none = false
  refers id (some ref) = same ref id
