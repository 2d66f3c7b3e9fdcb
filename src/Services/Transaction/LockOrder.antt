-- ===== src/Services/Transaction/LockOrder.antt =====
-- The order in which `transfer` of app/services/transaction_service.py locks its two accounts.
use text.Mathlib.TextEquality.{Char-path}
use corebank_api.Prelude.{
  ◌∙◌, ap, arith, sym, [], inr, ◌++◌, inl, Bool-cases, false, refl, true, str_lt, ◌∷◌, ◌≡◌, codes,
  List, String, lex_lt, ℕ,
}
use corebank_api.Services.Transaction.{lock_both, sorted_pair}
use corebank_api.Database.Engine.{Engine}
use corebank_api.Database.Statement.{Session}
use corebank_api.Errors.{ok}
use corebank_api.Database.Rows.{find}
use corebank_api.Repositories.Accounts.Money.{is_account}
use corebank_api.Services.Transaction.Steps.{lock_both_lem}

pub lex_asym : (xs ys : List ℕ) → lex_lt xs ys ≡ true → lex_lt ys xs ≡ false
unfolding lex_lt
lex_asym [] [] h = refl
lex_asym [] (y ∷ ys) h = refl
lex_asym (x ∷ xs) [] h = cc h
lex_asym (x ∷ xs) (y ∷ ys) h = ground (arith, lex_asym xs ys)

pub lex_total : (xs ys : List ℕ) → lex_lt xs ys ≡ false → lex_lt ys xs ≡ false → xs ≡ ys
unfolding lex_lt
lex_total [] [] h k = refl
lex_total [] (y ∷ ys) h k = cc h
lex_total (x ∷ xs) [] h k = cc k
lex_total (x ∷ xs) (y ∷ ys) h k = ground (arith, lex_total xs ys)

cons_eq : {x y : ℕ} {xs ys : List ℕ} → x ∷ xs ≡ y ∷ ys → (x ≡ y) × (xs ≡ ys)
cons_eq h = (cc h, cc h)

pub codes_injective : (s t : String) → codes s ≡ codes t → s ≡ t
codes_injective String.[] String.[] h = refl
codes_injective String.[] (String.◌∷◌ d t) h = cc h
codes_injective (String.◌∷◌ c s) String.[] h = cc h
codes_injective (String.◌∷◌ c s) (String.◌∷◌ d t) h =
    let (first, rest) = cons_eq h in
    λ i. String.◌∷◌ (Char-path c d first i) (codes_injective s t rest i)

sorted_pair_comm : (a b : String) → sorted_pair a b ≡ sorted_pair b a
unfolding sorted_pair str_lt
sorted_pair_comm a b = elim (Bool-cases (str_lt b a)) [
  | inl p ↦ rw (p, lex_asym (codes b) (codes a) p)
  | inr p ↦ elim (Bool-cases (str_lt a b)) [
    | inl q ↦ rw (p, q)
    | inr q ↦
        rw (p, q)
          (let same_id = codes_injective a b (lex_total (codes a) (codes b) q p) in
            λ i. (same_id i, sym same_id i))
  ]
]

sorted_pair_order : (a b : String) → str_lt (sorted_pair a b).1 (sorted_pair a b).0 ≡ false
unfolding sorted_pair str_lt
sorted_pair_order a b = elim (Bool-cases (str_lt b a)) [
  | inl p ↦ rw p (lex_asym (codes b) (codes a) p)
  | inr p ↦ rw p p
]

module _ ⦃e : Engine⦄ where
  -- A transfer locks two accounts, the one with the smaller id first; a transfer in the opposite
  -- direction locks the same two in the same order; and each finds its sender and its receiver.
  pub lock_order :
      (sid rid : String) (s : Session)
      → (first second : String) × (str_lt second first ≡ false)
        × ((lock_both sid rid s).1 ≡ record s { locks = (s.locks ++ first ∷ []) ++ second ∷ [] })
        × ((lock_both rid sid s).1 ≡ record s { locks = (s.locks ++ first ∷ []) ++ second ∷ [] })
        × ((lock_both sid rid s).0
            ≡ ok (find (is_account sid) s.db.accounts, find (is_account rid) s.db.accounts))
  lock_order sid rid s =
      let pair = sorted_pair_comm rid sid in
      (
        (sorted_pair sid rid).0,
        (sorted_pair sid rid).1,
        sorted_pair_order sid rid,
        ap (λ x. x.1) (lock_both_lem sid rid s),
        ap (λ x. x.1) (lock_both_lem rid sid s)
            ∙ ap (λ (p : String × String). record s { locks = (s.locks ++ p.0 ∷ []) ++ p.1 ∷ [] })
                pair,
        ap (λ x. x.0) (lock_both_lem sid rid s),
      )
