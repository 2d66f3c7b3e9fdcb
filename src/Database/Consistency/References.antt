-- ===== src/Database/Consistency/References.antt =====
-- A FOREIGN KEY under the statements: the rows that the column of another table refers to.
use corebank_api.Database.Constraints.{holds, refers, nullable}
use corebank_api.Database.Rows.{exists, select, replace}
use corebank_api.Database.Engine.{same_trans, same_sym, same, Engine}
use corebank_api.Prelude.{
  ◌∙◌, inr, ap, inl, Bool-cases, ◌++◌, refl, [], none, arith, Bool, some, ◌∷◌, false, true, All-map,
  not, All, ◌≡◌, List, Option, String,
}
use corebank_api.Database.Rows.Replace.{exists-replace}
use corebank_api.Database.Rows.Keys.{exists-append}

module _ ⦃e : Engine⦄ {P : Type 0} (key : P → String) where
  -- Every row that was there is there.
  abbrev pub Grows : List P → List P → Type 0
  Grows old new = (id : String) → holds key id old ≡ true → holds key id new ≡ true

  pub Grows-append : (xs : List P) (row : P) → Grows xs (xs ++ row ∷ [])
  Grows-append xs row id h = rw (exists-append (λ r. same (key r) id) xs (row ∷ [])) (rw h refl)

  pub Grows-replace :
      (p : P → Bool) (f : P → P) (xs : List P)
      → ((x : P) → key (f x) ≡ key x)
      → Grows xs (replace p f xs)
  Grows-replace p f xs stable id h =
      exists-replace p f (λ r. same (key r) id) (λ x. ap (λ k. same k id) (stable x)) xs ∙ h

  pub holds-kept :
      (id v : String) (xs : List P)
      → same v id ≡ false
      → holds key v (select (λ x. not (same (key x) id)) xs) ≡ holds key v xs
  holds-kept id v [] h = refl
  holds-kept id v (x ∷ xs) h =
      ground (arith, holds-kept id v xs h, same_sym (key x) v, same_trans v (key x) id)

  -- no row that goes has the value of a reference to a row that is there
  not_referred :
      (id v : String) (parents : List P) (test : P → Bool)
      → same v id ≡ true
      → holds key v parents ≡ true
      → ((x : P) → test x ≡ false → same v (key x) ≡ false)
      → exists test (select (λ x. same (key x) id) parents) ≡ false
      → ⊥
  not_referred id v [] test s h all free = cc h
  not_referred id v (x ∷ xs) test s h all free = elim (Bool-cases (same (key x) v)) [
    | inl q ↦
        let goes = same_trans (key x) v id q s in
        let free_row : test x ≡ false = let k = rw goes at free in ground (arith, k) in
        cc (all x free_row, same_sym (key x) v q)
    | inr q ↦ not_referred id v xs test s (rw q at h) all (elim (Bool-cases (same (key x) id)) [
      | inl g ↦ let k = rw g at free in ground (arith, k)
      | inr g ↦ rw g at free
    ])
  ]

module _ ⦃e : Engine⦄ {P C : Type 0} (key : P → String) (ref : C → Option String) where
  -- the row that `ref` names is there, unless it is NULL
  abbrev pub Found : List P → C → Type 0
  Found parents c = nullable (λ id. not (holds key id parents)) (ref c) ≡ false

  found_of :
      (old new : List P) (r : Option String)
      → Grows key old new
      → nullable (λ id. not (holds key id old)) r ≡ false
      → nullable (λ id. not (holds key id new)) r ≡ false
  found_of old new none g h = refl
  found_of old new (some id) g h = ground (arith, g id)

  pub Found-Grows :
      (old new : List P) (children : List C)
      → Grows key old new
      → All (Found old) children
      → All (Found new) children
  Found-Grows old new children g =
      All-map (Found old) (Found new) children (λ c h. found_of old new (ref c) g h)

  left_of :
      (id : String) (parents : List P) (test : P → Bool) (r : Option String)
      → ((x : P) → test x ≡ false → refers (key x) r ≡ false)
      → exists test (select (λ x. same (key x) id) parents) ≡ false
      → nullable (λ v. not (holds key v parents)) r ≡ false
      → nullable (λ v. not (holds key v (select (λ x. not (same (key x) id)) parents))) r ≡ false
  left_of id parents test none all free h = refl
  left_of id parents test (some v) all free h = elim (Bool-cases (same v id)) [
    | inl q ↦ absurd (not_referred key id v parents test q (ground arith) all free)
    | inr q ↦ rw (holds-kept key id v parents q) h
  ]

  -- Where no row with the key is referred to, the rows that are left have all that is referred to.
  pub Found-left :
      (id : String) (parents : List P) (test : P → Bool) (children : List C)
      → ((x : P) → test x ≡ false → exists (λ c. refers (key x) (ref c)) children ≡ false)
      → exists test (select (λ x. same (key x) id) parents) ≡ false
      → All (Found parents) children
      → All (Found (select (λ x. not (same (key x) id)) parents)) children
  Found-left id parents test [] all free h = tt
  Found-left id parents test (c ∷ cs) all free h = (
    left_of id parents test (ref c) (λ x k. ground (arith, all x k)) free h.0,
    Found-left id parents test cs (λ x k. ground (arith, all x k)) free h.1,
  )
