-- ===== src/Tests/Consistency.antt =====
-- A series of requests from the empty tables on.
use corebank_api.Repositories.Accounts
use corebank_api.Repositories.Branches
use corebank_api.Repositories.Customers
use corebank_api.Services.Account
use corebank_api.Services.Card
use corebank_api.Services.Card.Access.{get_ends}
use corebank_api.Repositories.Cards
use corebank_api.Repositories.Cards.{SafeCard}
use corebank_api.Repositories.Cards.Masked.{IsSafe}
use corebank_api.Api.Customers as CustomersViews
use corebank_api.Api.Branches as BranchesViews
use corebank_api.Api.Accounts as AccountsViews
use corebank_api.Api.Cards as CardsViews
use corebank_api.Services.Branch
use corebank_api.Services.Customer
use corebank_api.Api.Router.{
  Request, handle, customers_post, customers_delete, branches_post, accounts_post, cards_post,
}
use corebank_api.Api.Router.Consistency.{serve, serve-IsConsistent}
use corebank_api.Database.Consistency.Whole.{IsConsistent}
use corebank_api.Database.Schema.{Db, checking, admin, user, Card, Account, debit, active}
use corebank_api.Database.Tables.{
  credit_scores_table, tickets_table, transactions_table, cards_table, employees_table,
  loan_payments_table, loans_table, users_table, customers_table, branches_table, accounts_table,
}
use corebank_api.Database.Statement.{has_key, execute_insert, execute_delete}
use corebank_api.Database.Uow.{read_only, and_then, World, unit_of_work, integrity_guard}
use corebank_api.Database.Engine.{same, server_error}
use corebank_api.Security.{
  Credentials, verified, failure, admin_required, jwt_required, respond, reply_of,
}
use corebank_api.Services.Helpers.{ensure_owner_or_admin, Actor, is_admin}
use corebank_api.Prelude.{◌⊎◌, [], ◌∷◌, none, ◌≡◌, refl, str_eq, some, List}
use corebank_api.Tests.Bank.{mysql}
use corebank_api.Database.Rows.{find}
use corebank_api.Errors.{ok, not_found, app, err}

abbrev nothing : Db
nothing = record {
  customers = [];
  users = [];
  branches = [];
  accounts = [];
  loans = [];
  loan_payments = [];
  employees = [];
  cards = [];
  transactions = [];
  tickets = [];
  credit_scores = [];
}

abbrev opened : World
opened = record { committed = nothing; borrowed = 0 }

nothing-IsConsistent : IsConsistent nothing
unfolding customers_table users_table branches_table accounts_table loans_table loan_payments_table
    employees_table cards_table transactions_table tickets_table credit_scores_table
nothing-IsConsistent = record {
  customers = (tt, tt);
  users = (tt, tt);
  branches = (tt, tt);
  accounts = (tt, tt);
  loans = (tt, tt);
  loan_payments = (tt, tt);
  employees = (tt, tt);
  cards = (tt, tt);
  transactions = (tt, tt);
  tickets = (tt, tt);
  credit_scores = (tt, tt);
}

abbrev ada : Customer.NewCustomer
ada = record {
  first_name = "Ada";
  last_name = "Byron";
  date_of_birth = 18151210;
  phone_number = "020";
  email = "ada";
  address_line1 = "1 Main St";
  address_line2 = none;
  city = "London";
  zip_code = "W1";
  wage_declaration = none;
}

abbrev main_branch : Branch.NewBranch
main_branch = record {
  branch_name = "Main";
  address_line1 = "1 Main St";
  address_line2 = none;
  city = "London";
  zip_code = "W1";
  phone_number = "020";
}

abbrev plastic : Card.NewCard
plastic = record {
  account_id = "a1";
  card_type = debit;
  card_number = "1111222233334444";
  expiration_date = 9;
  cvv = "123";
  status = active;
}

abbrev client : Actor
client = record { user_id = "u1"; role = some user; customer_id = some "c1" }

abbrev officer : Credentials
officer = verified (record { user_id = "u0"; role = some admin; customer_id = none })

-- a customer, a branch, an account, an account of a customer that does not exist, and a card
abbrev requests : List (Request × Credentials)
requests =
    (customers_post ada "c1", officer)
    ∷ (branches_post main_branch "b1", officer)
    ∷ (accounts_post "c1" checking "b1" "a1" 1, officer)
    ∷ (accounts_post "c9" checking "b1" "a2" 1, officer)
    ∷ (cards_post plastic "k1", officer)
    ∷ []

serve-IsConsistent_example : IsConsistent (serve requests opened).committed
serve-IsConsistent_example = serve-IsConsistent requests opened nothing-IsConsistent

what_runs : Unit {0}
unfolding handle CustomersViews.post BranchesViews.post AccountsViews.post CardsViews.post
    Card.create Cards.insert Card.new_record cards_table read_only Customer.create Branch.create
    Account.create Accounts.insert Customers.insert Branches.insert Customer.new_record
    Branch.new_record Account.new_record customers_table branches_table accounts_table
    execute_insert unit_of_work integrity_guard admin_required jwt_required respond reply_of
    is_admin same str_eq
what_runs = tt

serve_test :
    (serve requests opened).committed.accounts ≡ Account.new_record "c1" checking "b1" "a1" 1 ∷ []
unfolding what_runs
serve_test = refl

delete_test :
    (handle (customers_delete "c1") officer (serve requests opened)).0
    ≡ failure 409 "Cannot delete: this record is still referenced by others"
unfolding what_runs server_error execute_delete CustomersViews.delete Customer.delete
    Customers.delete
delete_test = refl

get_ends_example :
    ((find (has_key cards_table "k1") (serve requests opened).committed.cards ≡ none)
      × (Card.get "k1" client (serve requests opened)
          ≡ (err (app not_found "Card not found"), serve requests opened)))
    ⊎ ((c : Card) × (a : Account) × (shown : SafeCard) × (find
            (has_key cards_table "k1")
            (serve requests opened).committed.cards
          ≡ some c)
        × (find (has_key accounts_table c.account_id) (serve requests opened).committed.accounts
            ≡ some a)
        × IsSafe c shown
        × (Card.get "k1" client (serve requests opened) ≡ (
          and_then (ensure_owner_or_admin client (some a.customer_id)) (λ _. ok (some shown)),
          serve requests opened,
        )))
get_ends_example =
    get_ends "k1" client (serve requests opened)
      (serve-IsConsistent requests opened nothing-IsConsistent)
