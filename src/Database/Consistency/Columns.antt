-- ===== src/Database/Consistency/Columns.antt =====
-- A UNIQUE column under the statements: no two rows with different keys share a value.
use corebank_api.Database.Constraints.{clashes}
use corebank_api.Database.Rows.{select, replace}
use corebank_api.Database.Rows.Keys.{All-append, exists-append, exists-select-false}
use corebank_api.Database.Engine.{same_trans, same_refl, same_sym, same, Engine}
use corebank_api.Prelude.{
  ◌∙◌, true, if◌then◌else◌, inr, [], refl, ◌++◌, arith, inl, ◌&&◌, All, false, not, All-map,
  Bool-cases, ◌∷◌, ◌≡◌, Bool, List, String,
}

module _ ⦃e : Engine⦄ {R : Type 0} (key col : R → String) where
  -- what `clashes` looks for
  abbrev clash : R → R → Bool
  clash x y = not (same (key y) (key x)) && same (col y) (col x)

  -- No row of the second list has another key and a value of the first.
  abbrev pub Apart : List R → List R → Type 0
  Apart xs ys = All (λ x. clashes key col x ys ≡ false) xs

  same_comm : (a b : String) → same a b ≡ same b a
  same_comm a b = elim (Bool-cases (same a b)) [
    | inl p ↦ elim (Bool-cases (same b a)) [
      | inl q ↦ rw (p, q) refl
      | inr q ↦ absurd (cc (q, same_sym a b p))
    ]
    | inr p ↦ elim (Bool-cases (same b a)) [
      | inl q ↦ absurd (cc (p, same_sym b a q))
      | inr q ↦ rw (p, q) refl
    ]
  ]

  clash_comm : (x y : R) → clash x y ≡ clash y x
  clash_comm x y = rw (same_comm (key y) (key x), same_comm (col y) (col x)) refl

  -- A row that clashes with none is one that none clashes with.
  apart_row :
      (row : R) (xs : List R) → clashes key col row xs ≡ false → All (λ x. clash x row ≡ false) xs
  apart_row row [] h = tt
  apart_row row (x ∷ xs) h = (rw (clash_comm x row) (ground arith), apart_row row xs (ground arith))

  Apart-extend :
      (row : R) (xs ys : List R)
      → Apart xs ys
      → All (λ x. clash x row ≡ false) xs
      → Apart xs (ys ++ row ∷ [])
  Apart-extend row [] ys h k = tt
  Apart-extend row (x ∷ xs) ys h k = (
    rw (exists-append (clash x) ys (row ∷ [])) (ground (arith, h.0, k.0)),
    Apart-extend row xs ys h.1 k.1,
  )

  pub Apart-append :
      (row : R) (xs : List R)
      → clashes key col row xs ≡ false
      → Apart xs xs
      → Apart (xs ++ row ∷ []) (xs ++ row ∷ [])
  Apart-append row xs free h =
      All-append (λ x. clashes key col x (xs ++ row ∷ []) ≡ false) xs (row ∷ [])
        (Apart-extend row xs xs h (apart_row row xs free))
        (
          rw (exists-append (clash row) xs (row ∷ [])) (ground (arith, free, same_refl (key row))),
          tt,
        )

  Apart-left : (p : R → Bool) (xs ys : List R) → Apart xs ys → Apart (select p xs) ys
  Apart-left p [] ys h = tt
  Apart-left p (x ∷ xs) ys h = elim (Bool-cases (p x)) [
    | inl q ↦ rw q (h.0, Apart-left p xs ys h.1)
    | inr q ↦ rw q (Apart-left p xs ys h.1)
  ]

  pub Apart-select : (p : R → Bool) (xs : List R) → Apart xs xs → Apart (select p xs) (select p xs)
  Apart-select p xs h =
      All-map (λ x. clashes key col x xs ≡ false) (λ x. clashes key col x (select p xs) ≡ false)
        (select p xs) (λ x k. exists-select-false p (clash x) xs k) (Apart-left p xs xs h)

  module _ (p : R → Bool) (f : R → R) (id : String) where
    abbrev moved : R → R
    moved x = if p x then f x else x

    -- How two rows of the table stand to each other after the UPDATE.
    pair_moved :
        (x y : R)
        → ((z : R) → key (f z) ≡ key z)
        → ((z : R) → p z ≡ true → same (key z) id ≡ true)
        → clash x y ≡ false
        → (p x ≡ true → clash (f x) y ≡ false)
        → (p y ≡ true → clash (f y) x ≡ false)
        → clash (moved x) (moved y) ≡ false
    pair_moved x y stable one h hx hy = elim (Bool-cases (p x)) [
      | inl a ↦ elim (Bool-cases (p y)) [
        | inl b ↦
            let s : same (key y) (key x) ≡ true =
              same_trans (key y) id (key x) (one y b) (same_sym (key x) id (one x a)) in
            rw (a, b, stable x, stable y, s) refl
        | inr b ↦ rw (a, b) (hx a)
      ]
      | inr a ↦ elim (Bool-cases (p y)) [
        | inl b ↦ rw (a, b) (clash_comm x (f y) ∙ hy b)
        | inr b ↦ rw (a, b) h
      ]
    ]

    row_moved :
        (x : R) (ys : List R)
        → ((z : R) → key (f z) ≡ key z)
        → ((z : R) → p z ≡ true → same (key z) id ≡ true)
        → clashes key col x ys ≡ false
        → (p x ≡ true → clashes key col (f x) ys ≡ false)
        → All (λ y. p y ≡ true → clash (f y) x ≡ false) ys
        → clashes key col (moved x) (replace p f ys) ≡ false
    row_moved x [] stable one h hx hy = refl
    row_moved x (y ∷ ys) stable one h hx hy =
        let first : clash (moved x) (moved y) ≡ false =
          pair_moved x y stable one (ground arith) (λ a. ground (arith, hx a)) hy.0 in
        let rest = row_moved x ys stable one (ground arith) (λ a. ground (arith, hx a)) hy.1 in
        ground (arith, first, rest)

    -- what each matched row's new value is checked for
    abbrev Checked : List R → List R → Type 0
    Checked xs ys = All (λ y. p y ≡ true → clashes key col (f y) xs ≡ false) ys

    Checked-column :
        (x : R) (xs ys : List R)
        → Checked (x ∷ xs) ys
        → All (λ y. p y ≡ true → clash (f y) x ≡ false) ys
    Checked-column x xs ys =
        All-map (λ y. p y ≡ true → clashes key col (f y) (x ∷ xs) ≡ false)
          (λ y. p y ≡ true → clash (f y) x ≡ false) ys (λ y h k. ground (arith, h k))

    Checked-rest : (x : R) (xs ys : List R) → Checked (x ∷ xs) ys → Checked xs ys
    Checked-rest x xs ys =
        All-map (λ y. p y ≡ true → clashes key col (f y) (x ∷ xs) ≡ false)
          (λ y. p y ≡ true → clashes key col (f y) xs ≡ false) ys (λ y h k. ground (arith, h k))

    rows_moved :
        (xs ys : List R)
        → ((z : R) → key (f z) ≡ key z)
        → ((z : R) → p z ≡ true → same (key z) id ≡ true)
        → Apart xs ys
        → Checked ys xs
        → Checked xs ys
        → Apart (replace p f xs) (replace p f ys)
    rows_moved [] ys stable one h up down = tt
    rows_moved (x ∷ xs) ys stable one h up down = (
      row_moved x ys stable one h.0 up.0 (Checked-column x xs ys down),
      rows_moved xs ys stable one h.1 up.1 (Checked-rest x xs ys down),
    )

    pub Apart-replace :
        (xs : List R)
        → ((z : R) → key (f z) ≡ key z)
        → ((z : R) → p z ≡ true → same (key z) id ≡ true)
        → Apart xs xs
        → All (λ x. p x ≡ true → clashes key col (f x) xs ≡ false) xs
        → Apart (replace p f xs) (replace p f xs)
    Apart-replace xs stable one h checked = rows_moved xs xs stable one h checked checked
