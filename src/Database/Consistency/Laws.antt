-- ===== src/Database/Consistency/Laws.antt =====
-- What the statements on a table need to know of its constraints: its own UNIQUE columns, and the
-- columns of another table that refer to it.
use corebank_api.Database.Statement.{Table, has_key}
use corebank_api.Database.Constraints.{clashes}
use corebank_api.Database.Rows.{exists, select, replace}
use corebank_api.Database.Rows.Replace.{All-replace}
use corebank_api.Database.Rows.Keys.{
  UniqueKey, UniqueKey-replace, UniqueKey-select, UniqueKey-append, All-append,
}
use corebank_api.Database.Consistency.Columns.{Apart, Apart-append, Apart-select, Apart-replace}
use corebank_api.Prelude.{
  sym, All-every, inr, subst, All-zip, ◌++◌, inl, true, false, none, [], Bool-cases, All-map, ◌≡◌,
  ◌∷◌, not, All, String, List, Bool,
}
use corebank_api.Database.Engine.{same, Engine}
use corebank_api.Database.Schema.{Db}

module _ {A B : Type 0} (P : A → B → Type 0) where
  first_column :
      (y : B) (ys : List B) (xs : List A) → All (λ x. All (P x) (y ∷ ys)) xs → All (λ x. P x y) xs
  first_column y ys xs = All-map (λ x. All (P x) (y ∷ ys)) (λ x. P x y) xs (λ x h. h.0)

  other_columns :
      (y : B) (ys : List B) (xs : List A)
      → All (λ x. All (P x) (y ∷ ys)) xs
      → All (λ x. All (P x) ys) xs
  other_columns y ys xs = All-map (λ x. All (P x) (y ∷ ys)) (λ x. All (P x) ys) xs (λ x h. h.1)

  pub All-swap :
      (xs : List A) (ys : List B) → All (λ x. All (P x) ys) xs → All (λ y. All (λ x. P x y) xs) ys
  All-swap xs [] h = tt
  All-swap xs (y ∷ ys) h = (first_column y ys xs h, All-swap xs ys (other_columns y ys xs h))

pub All-kept :
    {A : Type 0} (P : A → Type 0) (p : A → Bool) (xs : List A) → All P xs → All P (select p xs)
All-kept P p [] h = tt
All-kept P p (x ∷ xs) h = elim (Bool-cases (p x)) [
  | inl e ↦ rw e (h.0, All-kept P p xs h.1)
  | inr e ↦ rw e (All-kept P p xs h.1)
]

module _ ⦃e : Engine⦄ {R : Type 0} (t : Table R) where
  -- Unique keys, and every row passes the constraints of its table.
  abbrev pub IsLawful : Db → Type 0
  IsLawful db = UniqueKey t.key (t.rows db) × All (λ r. t.violation db r ≡ none) (t.rows db)

  -- a row that clashes with none of these in any of these columns
  abbrev pub IsFree : List (R → String) → List R → R → Type 0
  IsFree cols rows r = All (λ col. clashes t.key col r rows ≡ false) cols

  -- A row's violations depend on the rows of its own table by the UNIQUE columns only.
  pub record Unique : Type 0 where
    pub columns : List (R → String)
    pub rows_with : (db : Db) (rows : List R) → t.rows (t.with_rows db rows) ≡ rows
    pub free : (db : Db) (r : R) → t.violation db r ≡ none → IsFree columns (t.rows db) r
    pub keep :
        (db : Db) (rows : List R) (r : R)
        → t.violation db r ≡ none
        → IsFree columns rows r
        → t.violation (t.with_rows db rows) r ≡ none

  module _ (u : Unique) (db : Db) where
    aparts : IsLawful db → All (λ col. Apart t.key col (t.rows db) (t.rows db)) u.columns
    aparts h =
        All-swap (λ r col. clashes t.key col r (t.rows db) ≡ false) (t.rows db) u.columns
          (All-map (λ r. t.violation db r ≡ none) (IsFree u.columns (t.rows db)) (t.rows db)
            (u.free db) h.1)

    -- New rows that pass the constraints on the old ones, and do not clash with each other.
    IsLawful-rows :
        (rows : List R)
        → UniqueKey t.key rows
        → All (λ r. t.violation db r ≡ none) rows
        → All (λ col. Apart t.key col rows rows) u.columns
        → IsLawful (t.with_rows db rows)
    IsLawful-rows rows keys pass apart =
        let free = All-swap (λ col r. clashes t.key col r rows ≡ false) u.columns rows apart in
        let rows_lawful : All (λ r. t.violation (t.with_rows db rows) r ≡ none) rows =
          All-map (λ r. (t.violation db r ≡ none) × IsFree u.columns rows r)
            (λ r. t.violation (t.with_rows db rows) r ≡ none) rows
            (λ r both. u.keep db rows r both.0 both.1)
            (All-zip (λ r. t.violation db r ≡ none) (IsFree u.columns rows) rows pass free) in
        subst (λ l. UniqueKey t.key l × All (λ r. t.violation (t.with_rows db rows) r ≡ none) l)
          (sym (u.rows_with db rows)) (keys, rows_lawful)

    pub IsLawful-insert :
        (row : R)
        → IsLawful db
        → t.violation db row ≡ none
        → exists (has_key t (t.key row)) (t.rows db) ≡ false
        → IsLawful (t.with_rows db (t.rows db ++ row ∷ []))
    unfolding has_key
    IsLawful-insert row h pass new =
        let rows = t.rows db in
        IsLawful-rows (rows ++ row ∷ []) (UniqueKey-append t.key row rows new h.0)
          (All-append (λ r. t.violation db r ≡ none) rows (row ∷ []) h.1 (pass, tt))
          (All-map (λ col. Apart t.key col rows rows × (clashes t.key col row rows ≡ false))
            (λ col. Apart t.key col (rows ++ row ∷ []) (rows ++ row ∷ [])) u.columns
            (λ col both. Apart-append t.key col row rows both.1 both.0)
            (All-zip (λ col. Apart t.key col rows rows) (λ col. clashes t.key col row rows ≡ false)
              u.columns (aparts h) (u.free db row pass)))

    pub IsLawful-delete :
        (id : String)
        → IsLawful db
        → IsLawful (t.with_rows db (select (λ r. not (has_key t id r)) (t.rows db)))
    IsLawful-delete id h =
        let rows = t.rows db in
        let left : R → Bool = λ r. not (has_key t id r) in
        IsLawful-rows (select left rows) (UniqueKey-select t.key left rows h.0)
          (All-kept (λ r. t.violation db r ≡ none) left rows h.1)
          (All-map (λ col. Apart t.key col rows rows)
            (λ col. Apart t.key col (select left rows) (select left rows)) u.columns
            (λ col. Apart-select t.key col left rows) (aparts h))

    pub IsLawful-update :
        (p : R → Bool) (f : R → R) (id : String)
        → IsLawful db
        → ((r : R) → t.key (f r) ≡ t.key r)
        → ((r : R) → p r ≡ true → same (t.key r) id ≡ true)
        → All (λ r. p r ≡ true → t.violation db (f r) ≡ none) (t.rows db)
        → IsLawful (t.with_rows db (replace p f (t.rows db)))
    IsLawful-update p f id h stable one pass =
        let rows = t.rows db in
        let checked : All
            (λ r. All (λ col. p r ≡ true → clashes t.key col (f r) rows ≡ false) u.columns) rows =
          All-map (λ r. p r ≡ true → t.violation db (f r) ≡ none)
            (λ r. All (λ col. p r ≡ true → clashes t.key col (f r) rows ≡ false) u.columns) rows
            (λ r k. checked_columns r k) pass in
        IsLawful-rows (replace p f rows) (UniqueKey-replace t.key p f stable rows h.0)
          (All-replace p f (λ r. t.violation db r ≡ none) rows pass h.1)
          (All-map
            (λ col.
              Apart t.key col rows rows
              × All (λ r. p r ≡ true → clashes t.key col (f r) rows ≡ false) rows)
            (λ col. Apart t.key col (replace p f rows) (replace p f rows)) u.columns
            (λ col both. Apart-replace t.key col p f id rows stable one both.0 both.1)
            (All-zip (λ col. Apart t.key col rows rows)
              (λ col. All (λ r. p r ≡ true → clashes t.key col (f r) rows ≡ false) rows) u.columns
              (aparts h)
              (All-swap (λ r col. p r ≡ true → clashes t.key col (f r) rows ≡ false) rows u.columns
                checked)))
      where
        checked_columns :
            (r : R)
            → (p r ≡ true → t.violation db (f r) ≡ none)
            → All (λ col. p r ≡ true → clashes t.key col (f r) (t.rows db) ≡ false) u.columns
        checked_columns r k = elim (Bool-cases (p r)) [
          | inl q ↦
              All-map (λ col. clashes t.key col (f r) (t.rows db) ≡ false)
                (λ col. p r ≡ true → clashes t.key col (f r) (t.rows db) ≡ false) u.columns
                (λ col free _. free) (u.free db (f r) (k q))
          | inr q ↦
              All-every (λ col. p r ≡ true → clashes t.key col (f r) (t.rows db) ≡ false) u.columns
                (λ col yes_row. absurd (cc (q, yes_row)))
        ]
