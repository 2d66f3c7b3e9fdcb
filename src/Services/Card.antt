-- ===== src/Services/Card.antt =====
-- app/services/card_service.py
pub mod Access
use corebank_api.Repositories.Cards
use corebank_api.Prelude.{some, List, Option, String, ℕ}
use corebank_api.Database.Engine.{Engine}
use corebank_api.Services.Helpers.{ensure_owner_or_admin, Actor}
use corebank_api.Database.Schema.{Card, CardStatus, CardType}
use corebank_api.Database.Uow.{integrity_guard, read_only, act_bind, unit_of_work, Action}
use corebank_api.Database.Statement.{lift, ◌>>◌, require_row, or_raise, ◌>>=◌, Stmt}
use corebank_api.Errors.{not_found, app}

-- The `data` of `create`.
pub record NewCard : Type 0 where
  pub account_id : String
  pub card_type : CardType
  pub card_number : String
  pub expiration_date : ℕ
  pub cvv : String
  pub status : CardStatus

-- The `record` of `create`.
unfoldable pub new_record : NewCard → String → Card
new_record new_row id = record {
  card_id = id;
  account_id = new_row.account_id;
  card_type = new_row.card_type;
  card_number = new_row.card_number;
  expiration_date = new_row.expiration_date;
  cvv = new_row.cvv;
  status = new_row.status;
}

module _ ⦃e : Engine⦄ where
  -- stored in one unit of work, and read back masked in another block
  unfoldable pub create : NewCard → String → Action (Option Cards.SafeCard)
  create new_row id =
      act_bind (unit_of_work (integrity_guard (Cards.insert (new_record new_row id))))
        λ _. read_only (Cards.get id)

  unfoldable pub list_all : Action (List Cards.SafeCard)
  list_all = read_only Cards.list_all

  -- the ownership check that the reads and the writes of one card begin with
  unfoldable pub ensure_card_access : String → Actor → Stmt (Unit {0})
  ensure_card_access card_id actor = do
    found ← Cards.get_with_account card_id
    owned ← or_raise found (app not_found "Card not found")
    lift (ensure_owner_or_admin actor (some owned.customer_id))

  unfoldable pub get : String → Actor → Action (Option Cards.SafeCard)
  get card_id actor = read_only do ensure_card_access card_id actor; Cards.get card_id

  unfoldable pub set_status : String → CardStatus → Actor → Action (Option Cards.SafeCard)
  set_status card_id status actor = unit_of_work (
      integrity_guard
        do ensure_card_access card_id actor; Cards.set_status card_id status; Cards.get card_id)

  unfoldable pub delete : String → Action (Unit {0})
  delete card_id = unit_of_work (
      integrity_guard
        do gone ← Cards.delete card_id; require_row gone (app not_found "Card not found"))
