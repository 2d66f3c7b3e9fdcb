-- ===== src/Database/Rows.antt =====
-- SELECT, UPDATE and DELETE on the rows of one table, with a WHERE clause as a Boolean test.
pub mod Replace
pub mod Keys
use corebank_api.Prelude.{
  ℕ, ◌+◌, Bool, true, false, Option, none, some, List, [], ◌∷◌, if◌then◌else◌,
}

-- An UPDATE meets a server error at a row, or gives the new rows and the number of those counted.
pub data Outcome (R : Type 0) : Type 0 where
  failed : ℕ → Outcome R
  done : List R → ℕ → Outcome R

module _ {R : Type 0} where
  -- the first row of a result set, as `fetchone` returns it
  abbrev pub find : (R → Bool) → List R → Option R
  find p [] = none
  find p (x ∷ xs) = if p x then some x else find p xs

  abbrev pub select : (R → Bool) → List R → List R
  select p [] = []
  select p (x ∷ xs) = let rest = select p xs in if p x then x ∷ rest else rest

  abbrev pub exists : (R → Bool) → List R → Bool
  exists p [] = false
  exists p (x ∷ xs) = if p x then true else exists p xs

  abbrev pub count : (R → Bool) → List R → ℕ
  count p [] = 0
  count p (x ∷ xs) = (if p x then 1 else 0) + count p xs

  abbrev pub replace : (R → Bool) → (R → R) → List R → List R
  replace p f [] = []
  replace p f (x ∷ xs) = (if p x then f x else x) ∷ replace p f xs

  abbrev pub put_row : R → ℕ → Outcome R → Outcome R
  put_row y n (failed m) = failed m
  put_row y n (done ys k) = done (y ∷ ys) (n + k)

  -- `bad` finds the constraint that a new row violates, `counted` what a row adds to the row count
  abbrev pub update_rows : (R → Bool) → (R → R) → (R → Option ℕ) → (R → R → ℕ) → List R → Outcome R
  update_rows p f bad counted [] = done [] 0
  update_rows p f bad counted (x ∷ xs) =
      let rest = update_rows p f bad counted xs in
      if p x
      then elim (bad (f x)) [ some n ↦ failed n | none ↦ put_row (f x) (counted x (f x)) rest ]
      else put_row x 0 rest
