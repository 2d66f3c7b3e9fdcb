-- ===== src/Repositories/Transactions.antt =====
-- app/repositories/transactions.py
use corebank_api.Prelude.{
  ◌+ℤ◌, pos, ltb_ℤ, ℤ, leb_ℤ, ◌≡◌, ◌++◌, String, Bool, true, false, ◌||◌, Option, none, some, List,
  [], ◌∷◌, ℕ, leb, if◌then◌else◌,
}
use corebank_api.Errors.{ok}
use corebank_api.Database.Engine.{Engine, same}
use corebank_api.Database.Schema.{Customer, Db, Account, Transaction}
use corebank_api.Database.Statement.{
  Session, Stmt, fetch_one, fetch_all, execute_insert, execute_delete, has_key, ◌>>=◌, pure,
}
use corebank_api.Database.Statement.Effects.{execute_insert_ok}
use corebank_api.Database.Tables.{transactions_table}
use corebank_api.Database.Rows.{select}

-- `ORDER BY transaction_timestamp DESC`; rows of one time stay in the order of the table
unfoldable pub insert_by_time : Transaction → List Transaction → List Transaction
insert_by_time t [] = t ∷ []
insert_by_time t (x ∷ xs) =
    if leb x.transaction_timestamp t.transaction_timestamp
    then t ∷ x ∷ xs
    else x ∷ insert_by_time t xs

unfoldable pub newest_first : List Transaction → List Transaction
unfolding insert_by_time
newest_first [] = []
newest_first (x ∷ xs) = insert_by_time x (newest_first xs)

module _ ⦃e : Engine⦄ where
  -- `from_account_id = id OR to_account_id = id`
  unfoldable pub involves : String → Transaction → Bool
  involves id t =
      same t.from_account_id id || (elim t.to_account_id [ none ↦ false | some to ↦ same to id ])

  unfoldable pub insert : Transaction → Stmt (Unit {0})
  unfolding execute_insert transactions_table
  insert row = execute_insert transactions_table row

  unfoldable pub list_all : Stmt (List Transaction)
  unfolding transactions_table newest_first
  list_all = do rows ← fetch_all transactions_table (λ _. true); pure (newest_first rows)

  unfoldable pub get : String → Stmt (Option Transaction)
  unfolding transactions_table has_key
  get transaction_id = fetch_one transactions_table (has_key transactions_table transaction_id)

  unfoldable pub list_by_account : String → Stmt (List Transaction)
  unfolding transactions_table newest_first involves
  list_by_account account_id = do
    rows ← fetch_all transactions_table (involves account_id)
    pure (newest_first rows)

  unfoldable pub delete : String → Stmt ℕ
  unfolding transactions_table execute_delete
  delete transaction_id = execute_delete transactions_table transaction_id

  pub insert_ok :
      (row : Transaction) (s : Session) (u : Unit {0})
      → (insert row s).0 ≡ ok u
      → (transactions_table.violation s.db row ≡ none)
        × ((insert row s).1
            ≡ record s { db = record s.db { transactions = s.db.transactions ++ row ∷ [] } })
  unfolding insert
  insert_ok row s u h =
      let (fine, _, left) =
        execute_insert_ok transactions_table row s (λ i. (h i, (insert row s).1)) in
      (fine, left)

abbrev is_empty : {A : Type 0} → List A → Bool
is_empty [] = true
is_empty (_ ∷ _) = false

-- A row of the high-value report.
pub record HighValue : Type 0 where
  pub customer_id : String
  pub first_name : String
  pub last_name : String
  pub total_transaction : ℤ

abbrev pub sum_amounts : List Transaction → ℤ
sum_amounts [] = pos 0
sum_amounts (t ∷ ts) = t.amount +ℤ sum_amounts ts

unfoldable pub insert_by_total : HighValue → List HighValue → List HighValue
insert_by_total r [] = r ∷ []
insert_by_total r (x ∷ xs) =
    if leb_ℤ x.total_transaction r.total_transaction then r ∷ x ∷ xs else x ∷ insert_by_total r xs

-- `ORDER BY total_transaction DESC`
unfoldable pub highest_first : List HighValue → List HighValue
unfolding insert_by_total
highest_first [] = []
highest_first (x ∷ xs) = insert_by_total x (highest_first xs)

module _ ⦃e : Engine⦄ where
  -- The transactions that the JOINs give for a list of accounts, once for each account.
  unfoldable pub joined_transactions : List Transaction → List Account → List Transaction
  unfolding involves
  joined_transactions ts [] = []
  joined_transactions ts (a ∷ rest) =
      select (involves a.account_id) ts ++ joined_transactions ts rest

  -- The group of a customer, unless the JOINs give no row for it or the total is not above `minimum`.
  unfoldable pub high_value_groups : Db → ℤ → List Customer → List HighValue
  unfolding joined_transactions
  high_value_groups db minimum [] = []
  high_value_groups db minimum (c ∷ rest) =
      let own = select (λ (a : Account). same a.customer_id c.customer_id) db.accounts in
      let total = sum_amounts (joined_transactions db.transactions own) in
      let others = high_value_groups db minimum rest in
      if is_empty (joined_transactions db.transactions own)
      then others
      else if ltb_ℤ minimum total
      then record {
        customer_id = c.customer_id;
        first_name = c.first_name;
        last_name = c.last_name;
        total_transaction = total;
      }
        ∷ others
      else others

  unfoldable pub customers_with_high_transactions : ℤ → Stmt (List HighValue)
  unfolding high_value_groups highest_first
  customers_with_high_transactions minimum s =
      (ok (highest_first (high_value_groups s.db minimum s.db.customers)), s)
