-- ===== src/Database/Rows/Replace.antt =====
-- What an UPDATE that meets no error leaves in the table: the matched rows replaced, in place.
use corebank_api.Prelude.{
  ℕ, ◌+◌, ◌≤◌, ◌<◌, ◌≡◌, refl, Bool, true, ◌&&◌, inl, inr, Option, none, some, List, [], ◌∷◌, ◌++◌,
  ℤ, pos, ◌+ℤ◌, int_laws, arith, All, Bool-cases, if◌then◌else◌,
}
use corebank_api.Database.Rows.{
  Outcome, failed, done, find, exists, count, replace, put_row, update_rows,
}
use mathlib.Core.Option

module _ {R : Type 0} where
  -- The sum of a column.
  abbrev pub sum_of : (R → ℤ) → List R → ℤ
  sum_of g [] = pos 0
  sum_of g (x ∷ xs) = g x +ℤ sum_of g xs

  pub sum_of-append :
      (g : R → ℤ) (xs ys : List R) → sum_of g (xs ++ ys) ≡ sum_of g xs +ℤ sum_of g ys
  sum_of-append g [] ys = omega int_laws
  sum_of-append g (x ∷ xs) ys = rw (sum_of-append g xs ys) (omega int_laws)

  module _ (p : R → Bool) (f : R → R) where
    pub replace_none : (xs : List R) → count p xs ≡ 0 → replace p f xs ≡ xs
    replace_none [] h = refl
    replace_none (x ∷ xs) h = ground (arith, replace_none xs)

    pub sum_of-replace :
        (g : R → ℤ) (d : ℤ) (xs : List R)
        → ((x : R) → g (f x) ≡ g x +ℤ d)
        → count p xs ≡ 1
        → sum_of g (replace p f xs) ≡ sum_of g xs +ℤ d
    sum_of-replace g d [] h one = cc
    sum_of-replace g d (x ∷ xs) h one = elim (Bool-cases (p x)) [
      | inl e ↦ rw (e, replace_none xs (ground arith), h x) (omega int_laws)
      | inr e ↦ rw (e, sum_of-replace g d xs h (ground arith)) (omega int_laws)
    ]

    -- Old rows and accepted new rows that have a property make a table that has it.
    pub All-replace :
        (P : R → Type 0) (xs : List R)
        → All (λ x. p x ≡ true → P (f x)) xs
        → All P xs
        → All P (replace p f xs)
    All-replace P [] h a = tt
    All-replace P (x ∷ xs) h a = elim (Bool-cases (p x)) [
      | inl e ↦ rw e (h.0 e, All-replace P xs h.1 a.1)
      | inr e ↦ rw e (a.0, All-replace P xs h.1 a.1)
    ]

    module _ (q : R → Bool) (stable : (x : R) → q (f x) ≡ q x) where
      pub exists-replace : (xs : List R) → exists q (replace p f xs) ≡ exists q xs
      exists-replace [] = refl
      exists-replace (x ∷ xs) = ground (arith, stable x, exists-replace xs)

      pub count-replace : (xs : List R) → count q (replace p f xs) ≡ count q xs
      count-replace [] = refl
      count-replace (x ∷ xs) = ground (arith, stable x, count-replace xs)

      pub find-replace :
          (xs : List R)
          → find q (replace p f xs) ≡ Option.map (λ r. if p r then f r else r) (find q xs)
      find-replace [] = refl
      find-replace (x ∷ xs) = ground (arith, stable x, find-replace xs)

  module _ (p : R → Bool) (f : R → R) (bad : R → Option ℕ) (counted : R → R → ℕ) where
    -- what the matched rows add to the row count
    abbrev pub tally : List R → ℕ
    tally [] = 0
    tally (x ∷ xs) = (if p x then counted x (f x) else 0) + tally xs

    pub tally-eq-count :
        (xs : List R) → ((x : R) → p x ≡ true → counted x (f x) ≡ 1) → tally xs ≡ count p xs
    tally-eq-count [] h = refl
    tally-eq-count (x ∷ xs) h = ground (arith, h x, tally-eq-count xs h)

    abbrev first_row : R → Outcome R → Outcome R
    first_row x o =
        if p x
        then elim (bad (f x)) [ some m ↦ failed m | none ↦ put_row (f x) (counted x (f x)) o ]
        else put_row x 0 o

    first_row_done :
        (x : R) (o : Outcome R) {ys : List R} {n : ℕ}
        → first_row x o ≡ done ys n
        → (zs : List R) × (k : ℕ) × (o ≡ done zs k)
          × (ys ≡ (if p x then f x else x) ∷ zs)
          × (n ≡ (if p x then counted x (f x) else 0) + k)
          × (p x ≡ true → bad (f x) ≡ none)
    first_row_done x (failed m) h = absurd (ground arith)
    first_row_done x (done zs k) h = (zs, k, refl, ground arith, ground arith, λ e. ground arith)

    -- An UPDATE that meets no error has replaced the matched rows, and each passed the constraints.
    pub update_rows_done :
        (xs : List R) {ys : List R} {n : ℕ}
        → update_rows p f bad counted xs ≡ done ys n
        → (ys ≡ replace p f xs) × (n ≡ tally xs) × All (λ x. p x ≡ true → bad (f x) ≡ none) xs
    update_rows_done [] h = (cc, cc, tt)
    update_rows_done (x ∷ xs) h =
        let (zs, k, e, head, size, passed) = first_row_done x (update_rows p f bad counted xs) h in
        let (tail, rest, all) = update_rows_done xs e in (cc, cc, (passed, all))

    -- An UPDATE that matches a row fails, if all that it matches violate the same constraint.
    pub update_rows_fails :
        (n : ℕ) {r : R} (xs : List R)
        → find p xs ≡ some r
        → All (λ x. p x ≡ true → bad (f x) ≡ some n) xs
        → update_rows p f bad counted xs ≡ failed n
    update_rows_fails n [] h b = cc
    update_rows_fails n {r} (x ∷ xs) h b = elim (Bool-cases (p x)) [
      | inl e ↦ rw (e, b.0 e)
      | inr e ↦ rw (e, update_rows_fails n {r = r} xs (ground arith) b.1)
    ]

    pub tally_zero : (xs : List R) → All (λ x. p x ≡ true → counted x (f x) ≡ 0) xs → tally xs ≡ 0
    tally_zero [] h = refl
    tally_zero (x ∷ xs) h = ground (arith, h.0, tally_zero xs h.1)

    -- With every matched row accepted by the constraints an UPDATE goes through.
    pub update_rows_goes :
        (xs : List R)
        → All (λ x. p x ≡ true → bad (f x) ≡ none) xs
        → update_rows p f bad counted xs ≡ done (replace p f xs) (tally xs)
    update_rows_goes [] h = refl
    update_rows_goes (x ∷ xs) h = elim (Bool-cases (p x)) [
      | inl e ↦ rw (e, h.0 e, update_rows_goes xs h.1)
      | inr e ↦ rw (e, update_rows_goes xs h.1)
    ]

  pub count-and-le : (p q : R → Bool) (xs : List R) → count (λ x. p x && q x) xs ≤ count p xs
  count-and-le p q [] = omega arith
  count-and-le p q (x ∷ xs) = ground (arith, count-and-le p q xs)

  pub count_of_find :
      (p : R → Bool) {r : R} (xs : List R) → find p xs ≡ some r → (0 < count p xs) × (p r ≡ true)
  count_of_find p [] h = cc
  count_of_find p {r} (x ∷ xs) h = ground (arith, count_of_find p {r = r} xs)
