-- ===== src/Database/Rows/Keys.antt =====
-- Rows with one value in a key column: under a unique key there is at most one.
use corebank_api.Prelude.{
  none, not, All, some, ◌≤◌, String, ◌≡◌, refl, Bool, true, false, inl, inr, List, [], ◌∷◌, ◌++◌,
  arith, ap, Bool-cases, if◌then◌else◌,
}
use corebank_api.Database.Engine.{Engine, same, same_sym, same_trans}
use corebank_api.Database.Rows.{find, select, exists, count, replace}
use corebank_api.Database.Rows.Replace.{exists-replace}

module _ {R : Type 0} where
  pub exists-append :
      (q : R → Bool) (xs ys : List R)
      → exists q (xs ++ ys) ≡ (if exists q xs then true else exists q ys)
  exists-append q [] ys = refl
  exists-append q (x ∷ xs) ys = ground (arith, exists-append q xs ys)

  pub find-append_new :
      (p : R → Bool) (row : R) (xs : List R)
      → exists p xs ≡ false
      → p row ≡ true
      → find p (xs ++ row ∷ []) ≡ some row
  find-append_new p row [] new h = ground arith
  find-append_new p row (x ∷ xs) new h = ground (arith, find-append_new p row xs)

  pub find-select-not : (p : R → Bool) (xs : List R) → find p (select (λ r. not (p r)) xs) ≡ none
  find-select-not p [] = refl
  find-select-not p (x ∷ xs) = ground (arith, find-select-not p xs)

  pub All-select : (p : R → Bool) (xs : List R) → All (λ x. p x ≡ true) (select p xs)
  All-select p [] = tt
  All-select p (x ∷ xs) = elim (Bool-cases (p x)) [
    | inl e ↦ rw e (e, All-select p xs)
    | inr e ↦ rw e (All-select p xs)
  ]

  pub All-append : (P : R → Type 0) (xs ys : List R) → All P xs → All P ys → All P (xs ++ ys)
  All-append P [] ys h k = k
  All-append P (x ∷ xs) ys h k = (h.0, All-append P xs ys h.1 k)

  pub exists-select-false :
      (p q : R → Bool) (xs : List R) → exists q xs ≡ false → exists q (select p xs) ≡ false
  exists-select-false p q [] h = refl
  exists-select-false p q (x ∷ xs) h = ground (arith, exists-select-false p q xs)

  pub count_not_exists : (q : R → Bool) (xs : List R) → exists q xs ≡ false → count q xs ≡ 0
  count_not_exists q [] h = refl
  count_not_exists q (x ∷ xs) h = ground (arith, count_not_exists q xs)

module _ ⦃e : Engine⦄ {R : Type 0} (key : R → String) where
  -- No two rows of the list have equal keys.
  abbrev pub UniqueKey : List R → Type 0
  UniqueKey [] = Unit
  UniqueKey (x ∷ xs) = (exists (λ r. same (key r) (key x)) xs ≡ false) × UniqueKey xs

  absent_key :
      (k id : String) (xs : List R)
      → same k id ≡ true
      → exists (λ r. same (key r) k) xs ≡ false
      → exists (λ r. same (key r) id) xs ≡ false
  absent_key k id [] h no_row = refl
  absent_key k id (x ∷ xs) h no_row =
      ground (arith, absent_key k id xs, same_sym k id, same_trans (key x) id k)

  -- Under a unique key at most one row is found.
  pub count-UniqueKey :
      (id : String) (xs : List R) → UniqueKey xs → count (λ r. same (key r) id) xs ≤ 1
  count-UniqueKey id [] u = omega arith
  count-UniqueKey id (x ∷ xs) u = elim (Bool-cases (same (key x) id)) [
    | inl e ↦
        ground (arith, count_not_exists (λ r. same (key r) id) xs (absent_key (key x) id xs e u.0))
    | inr e ↦ ground (arith, count-UniqueKey id xs u.1)
  ]

  key_kept :
      (p : R → Bool) (f : R → R) (stable : (x : R) → key (f x) ≡ key x) (x : R)
      → key (if p x then f x else x) ≡ key x
  key_kept p f stable x = elim (Bool-cases (p x)) [ inl e ↦ rw e (stable x) | inr e ↦ rw e ]

  pub UniqueKey-replace :
      (p : R → Bool) (f : R → R) (stable : (x : R) → key (f x) ≡ key x) (xs : List R)
      → UniqueKey xs
      → UniqueKey (replace p f xs)
  UniqueKey-replace p f stable [] u = tt
  UniqueKey-replace p f stable (x ∷ xs) u = (
    rw
        (
          key_kept p f stable x,
          exists-replace p f (λ r. same (key r) (key x)) (λ y. ap (λ k. same k (key x)) (stable y))
              xs,
        )
        u.0,
    UniqueKey-replace p f stable xs u.1,
  )

  pub UniqueKey-select : (p : R → Bool) (xs : List R) → UniqueKey xs → UniqueKey (select p xs)
  UniqueKey-select p [] u = tt
  UniqueKey-select p (x ∷ xs) u = elim (Bool-cases (p x)) [
    | inl e ↦
        rw e (exists-select-false p (λ r. same (key r) (key x)) xs u.0, UniqueKey-select p xs u.1)
    | inr e ↦ rw e (UniqueKey-select p xs u.1)
  ]

  pub UniqueKey-append :
      (row : R) (xs : List R)
      → exists (λ r. same (key r) (key row)) xs ≡ false
      → UniqueKey xs
      → UniqueKey (xs ++ row ∷ [])
  UniqueKey-append row [] new u = (refl, tt)
  UniqueKey-append row (x ∷ xs) new u = (
    ground (
      arith,
      exists-append (λ r. same (key r) (key x)) xs (row ∷ []),
      same_sym (key row) (key x),
    ),
    UniqueKey-append row xs (ground arith) u.1,
  )

  -- Under a unique key a row with the value is the row that is found.
  pub only_match :
      (id : String) {a : R} (xs : List R)
      → UniqueKey xs
      → find (λ r. same (key r) id) xs ≡ some a
      → All (λ x. same (key x) id ≡ true → x ≡ a) xs
  only_match id [] u h = tt
  only_match id {a} (x ∷ xs) u h = elim (Bool-cases (same (key x) id)) [
    | inl e ↦ (λ _. ground arith, none_match xs (absent_key (key x) id xs e u.0))
    | inr e ↦ (λ f. absurd (cc (e, f)), only_match id {a = a} xs u.1 (ground arith))
  ]
    where
      none_match :
          (ys : List R)
          → exists (λ r. same (key r) id) ys ≡ false
          → All (λ y. same (key y) id ≡ true → y ≡ a) ys
      none_match [] h = tt
      none_match (y ∷ ys) h = (λ f. absurd (ground arith), none_match ys (ground arith))
