-- ===== src/Repositories/Cards.antt =====
-- app/repositories/cards.py
pub mod Masked
use mathlib.Core.Option
use corebank_api.Database.Statement.{
  pure, has_key, fetch_one, fetch_all, execute_insert, execute_update, execute_delete, Stmt, ◌>>=◌,
}
use Prim.Native.String.{◌++◌ as ◌++ˢ◌}
use corebank_api.Prelude.{map, true, Option, zero, List, suc, ◌-◌, String, ℕ}
use corebank_api.Database.Schema.{Account, Db, CardStatus, CardType, Card}
use corebank_api.Database.Engine.{Engine}
use corebank_api.Database.Tables.{cards_table, accounts_table}
use corebank_api.Errors.{ok}
use corebank_api.Database.Rows.{find}

-- The columns of `SAFE_COLUMNS`; the number is masked.
pub record SafeCard : Type 0 where
  pub card_id : String
  pub account_id : String
  pub card_type : CardType
  pub card_number : String
  pub expiration_date : ℕ
  pub status : CardStatus

pub record CardOwner : Type 0 where
  pub card_id : String
  pub account_id : String
  pub customer_id : String
  pub status : CardStatus

unfoldable pub text_length : String → ℕ
text_length String.[] = 0
text_length (String.◌∷◌ c s) = suc (text_length s)

unfoldable pub drop_chars : ℕ → String → String
drop_chars zero s = s
drop_chars (suc n) String.[] = String.[]
drop_chars (suc n) (String.◌∷◌ c s) = drop_chars n s

-- `RIGHT(s, n)`
unfoldable pub right : String → ℕ → String
unfolding text_length drop_chars
right s n = drop_chars (text_length s - n) s

-- `CONCAT('************', RIGHT(card_number, 4))`
unfoldable pub masked : String → String
unfolding right
masked number = "************" ++ˢ right number 4

unfoldable pub safe : Card → SafeCard
unfolding masked
safe c = record {
  card_id = c.card_id;
  account_id = c.account_id;
  card_type = c.card_type;
  card_number = masked c.card_number;
  expiration_date = c.expiration_date;
  status = c.status;
}

module _ ⦃e : Engine⦄ where
  unfoldable pub insert : Card → Stmt (Unit {0})
  insert row = execute_insert cards_table row

  unfoldable pub list_all : Stmt (List SafeCard)
  unfolding cards_table safe
  list_all = do rows ← fetch_all cards_table (λ _. true); pure (map safe rows)

  unfoldable pub get : String → Stmt (Option SafeCard)
  unfolding cards_table safe
  get card_id = do
    row ← fetch_one cards_table (has_key cards_table card_id)
    pure (Option.map safe row)

  -- a card beside the account that it joins; the key of the account is unique
  unfoldable pub with_owner : Db → Card → Option CardOwner
  unfolding accounts_table
  with_owner db c =
      Option.map
        (λ (a : Account). record {
          card_id = c.card_id;
          account_id = c.account_id;
          customer_id = a.customer_id;
          status = c.status;
        })
        (find (has_key accounts_table c.account_id) db.accounts)

  unfoldable pub get_with_account : String → Stmt (Option CardOwner)
  unfolding cards_table with_owner
  get_with_account card_id s =
      (ok (Option.bind (find (has_key cards_table card_id) s.db.cards) (with_owner s.db)), s)

  unfoldable pub set_status : String → CardStatus → Stmt ℕ
  set_status card_id status =
      execute_update cards_table (has_key cards_table card_id) (λ c. record c { status = status })

  unfoldable pub delete : String → Stmt ℕ
  delete card_id = execute_delete cards_table card_id
