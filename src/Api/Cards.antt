-- ===== src/Api/Cards.antt =====
-- app/api/cards.py
use corebank_api.Prelude.{Option, List, String}
use corebank_api.Services.Card
use corebank_api.Database.Engine.{Engine}
use corebank_api.Security.{View, jwt_required, admin_required}
use corebank_api.Database.Schema.{CardStatus}
use corebank_api.Repositories.Cards.{SafeCard}

module _ ⦃e : Engine⦄ where
  unfoldable pub get_all : View (List SafeCard)
  unfolding admin_required
  get_all = admin_required 200 λ _. Card.list_all

  unfoldable pub post : Card.NewCard → String → View (Option SafeCard)
  unfolding admin_required
  post new_row id = admin_required 201 λ _. Card.create new_row id

  unfoldable pub get : String → View (Option SafeCard)
  unfolding jwt_required
  get id = jwt_required 200 λ actor. Card.get id actor

  unfoldable pub delete : String → View (Unit {0})
  unfolding admin_required
  delete id = admin_required 204 λ _. Card.delete id

  unfoldable pub put_status : String → CardStatus → View (Option SafeCard)
  unfolding jwt_required
  put_status id status = jwt_required 200 λ actor. Card.set_status id status actor
