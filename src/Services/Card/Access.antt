-- ===== src/Services/Card/Access.antt =====
-- Who gets a card from app/services/card_service.py.
use corebank_api.Repositories.Cards
use mathlib.Core.Option
use corebank_api.Repositories.Cards.{SafeCard}
use corebank_api.Repositories.Cards.Masked.{IsSafe, safe-IsSafe}
use corebank_api.Services.Card.{get, ensure_card_access}
use corebank_api.Database.Consistency.Whole.{IsConsistent}
use corebank_api.Database.Engine.{Engine}
use corebank_api.Database.Rows.{find, exists}
use corebank_api.Database.Schema.{Account, Card}
use corebank_api.Database.Statement.{has_key}
use corebank_api.Database.Tables.{accounts_table, cards_table}
use corebank_api.Database.Uow.{World, read_only, and_then}
use corebank_api.Errors.{app, not_found, ok, err}
use corebank_api.Services.Helpers.{Actor, ensure_owner_or_admin}
use corebank_api.Prelude.{
  subst, [], Bool-cases, arith, ◌∷◌, String, ◌≡◌, none, some, ◌⊎◌, inl, inr, Option-cases, List,
  Bool, true, All, refl,
}

All-find :
    {A : Type 0} (P : A → Type 0) (p : A → Bool) (xs : List A) {x : A}
    → find p xs ≡ some x
    → All P xs
    → P x
All-find P p [] {x = x} e h = cc e
All-find P p (y ∷ ys) {x = x} e h = elim (Bool-cases (p y)) [
  | inl yes_here ↦
      let q : some y ≡ some x = rw yes_here at e in let one : y ≡ x = cc q in subst P one h.0
  | inr no_here ↦ All-find P p ys (rw no_here at e) h.1
]

find-exists :
    {A : Type 0} (p : A → Bool) (xs : List A) → exists p xs ≡ true → (x : A) × (find p xs ≡ some x)
find-exists p [] e = cc e
find-exists p (x ∷ xs) e = elim (Bool-cases (p x)) [
  | inl here ↦ (x, rw here refl)
  | inr there ↦ rw there (find-exists p xs (ground arith))
]

module _ ⦃e : Engine⦄ where
  -- The account that a stored card refers to.
  account_of :
      (w : World) (id : String) {c : Card}
      → IsConsistent w.committed
      → find (has_key cards_table id) w.committed.cards ≡ some c
      → (a : Account) × (find (has_key accounts_table c.account_id) w.committed.accounts ≡ some a)
  unfolding has_key accounts_table cards_table
  account_of w id {c} h found =
      let fine =
        All-find (λ r. cards_table.violation w.committed r ≡ none) (has_key cards_table id)
          w.committed.cards found h.cards.1 in
      find-exists (has_key accounts_table c.account_id) w.committed.accounts (ground arith)

  -- In a database whose tables keep their constraints, `get` changes nothing, and either no card has
  -- the id and it raises "Card not found", or the card's account exists and, where the ownership check
  -- for the account's customer passes, it returns the columns of the card without the cvv, of the
  -- number only the last four characters after twelve stars, and otherwise raises that check's refusal.
  pub get_ends :
      (id : String) (actor : Actor) (w : World)
      → IsConsistent w.committed
      → ((find (has_key cards_table id) w.committed.cards ≡ none)
          × (get id actor w ≡ (err (app not_found "Card not found"), w)))
        ⊎ ((c : Card) × (a : Account) × (shown : SafeCard) × (find
                (has_key cards_table id)
                w.committed.cards
              ≡ some c)
            × (find (has_key accounts_table c.account_id) w.committed.accounts ≡ some a)
            × IsSafe c shown
            × (get id actor w ≡ (
              and_then (ensure_owner_or_admin actor (some a.customer_id)) (λ _. ok (some shown)),
              w,
            )))
  unfolding get ensure_card_access Cards.get_with_account Cards.with_owner Cards.get read_only
      has_key cards_table accounts_table Option.bind
  get_ends id actor w h = elim (Option-cases (find (has_key cards_table id) w.committed.cards)) [
    | inl missing ↦ inl (missing, ground (arith, missing))
    | inr (c, found) ↦
        let (a, owner) = account_of w id h found in
        inr (c, a, Cards.safe c, found, owner, safe-IsSafe c, ground (arith, found, owner))
  ]
