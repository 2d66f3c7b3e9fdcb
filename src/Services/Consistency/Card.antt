-- ===== src/Services/Consistency/Card.antt =====
-- app/repositories/cards.py and app/services/card_service.py keep the database consistent.
use corebank_api.Repositories.Cards
use corebank_api.Services.Card
use corebank_api.Database.Consistency.Keeps.{
  Keeps, Serves, Keeps-insert, Keeps-update, Keeps-delete, Keeps-bind, Keeps-read, Serves-read,
  Serves-bind,
}
use corebank_api.Database.Consistency.Blocks.{serves_rules}
use corebank_api.Database.Consistency.Leaves.{cards-Whole}
use corebank_api.Database.Tables.{cards_table}
use corebank_api.Database.Engine.{Engine}
use corebank_api.Database.Schema.{CardStatus, Card}
use corebank_api.Database.Statement.{has_key}
use corebank_api.Prelude.{refl, String}
use corebank_api.Services.Helpers.{Actor}

module _ ⦃e : Engine⦄ where
  insert-Keeps : (row : Card) → Keeps (Cards.insert row)
  unfolding Cards.insert
  insert-Keeps row = Keeps-insert cards_table cards-Whole row

  delete-Keeps : (id : String) → Keeps (Cards.delete id)
  unfolding Cards.delete
  delete-Keeps id = Keeps-delete cards_table cards-Whole id

  set_status-Keeps : (id : String) (status : CardStatus) → Keeps (Cards.set_status id status)
  unfolding Cards.set_status cards_table has_key
  set_status-Keeps id status =
      Keeps-update cards_table cards-Whole (has_key cards_table id)
        (λ l. record l { status = status }) id (λ _. refl) λ _ h. h

  pub create-Serves : (new_row : Card.NewCard) (id : String) → Serves (Card.create new_row id)
  unfolding Card.create
  create-Serves new_row id = search (serves_rules, Serves-bind, insert-Keeps)

  ensure_card_access-Keeps :
      (id : String) (actor : Actor) → Keeps (Card.ensure_card_access id actor)
  unfolding Card.ensure_card_access Cards.get_with_account
  ensure_card_access-Keeps id actor = search (Keeps-bind, Keeps-read)

  pub set_status-Serves :
      (id : String) (status : CardStatus) (actor : Actor) → Serves (Card.set_status id status actor)
  unfolding Card.set_status Cards.get
  set_status-Serves id status actor =
      search (serves_rules, ensure_card_access-Keeps, set_status-Keeps)

  pub delete-Serves : (id : String) → Serves (Card.delete id)
  unfolding Card.delete
  delete-Serves id = search (serves_rules, delete-Keeps)

  pub list_all-Serves : Serves (Card.list_all)
  unfolding Card.list_all
  list_all-Serves = Serves-read Cards.list_all

  pub get-Serves : (id : String) (actor : Actor) → Serves (Card.get id actor)
  unfolding Card.get
  get-Serves id actor = search serves_rules

-- Every operation of the service keeps the database consistent.
pub ruleset card_consistent =
    (create-Serves, set_status-Serves, delete-Serves, list_all-Serves, get-Serves)
