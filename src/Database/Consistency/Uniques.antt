-- ===== src/Database/Consistency/Uniques.antt =====
-- The UNIQUE columns of each table of migrations/001_initial_schema.sql.
use corebank_api.Database.Consistency.Laws.{Unique}
use corebank_api.Database.Engine.{Engine}
use corebank_api.Database.Tables.{
  credit_scores_table, transactions_table, employees_table, customers_table, users_table,
  cards_table, loan_payments_table, branches_table, loans_table, tickets_table, accounts_table,
}
use corebank_api.Database.Schema.{Customer, User, Branch, Card, Employee}
use corebank_api.Prelude.{arith, refl, ◌∷◌, []}

module _ ⦃e : Engine⦄ where
  pub customers-Unique : Unique customers_table
  unfolding customers_table
  customers-Unique = record {
    columns = (λ (r : Customer). r.phone_number) ∷ (λ (r : Customer). r.email) ∷ [];
    rows_with = λ db rows. refl;
    free = λ db r h. (ground arith, (ground arith, tt));
    keep = λ db rows r h k. ground (arith, k.0, k.1.0);
  }

  pub users-Unique : Unique users_table
  unfolding users_table
  users-Unique = record {
    columns = (λ (r : User). r.username) ∷ [];
    rows_with = λ db rows. refl;
    free = λ db r h. (ground arith, tt);
    keep = λ db rows r h k. ground (arith, k.0);
  }

  pub branches-Unique : Unique branches_table
  unfolding branches_table
  branches-Unique = record {
    columns = (λ (r : Branch). r.branch_name) ∷ (λ (r : Branch). r.phone_number) ∷ [];
    rows_with = λ db rows. refl;
    free = λ db r h. (ground arith, (ground arith, tt));
    keep = λ db rows r h k. ground (arith, k.0, k.1.0);
  }

  pub accounts-Unique : Unique accounts_table
  unfolding accounts_table
  accounts-Unique = record {
    columns = [];
    rows_with = λ db rows. refl;
    free = λ db r h. tt;
    keep = λ db rows r h k. h;
  }

  pub loans-Unique : Unique loans_table
  unfolding loans_table
  loans-Unique = record {
    columns = [];
    rows_with = λ db rows. refl;
    free = λ db r h. tt;
    keep = λ db rows r h k. h;
  }

  pub loan_payments-Unique : Unique loan_payments_table
  unfolding loan_payments_table
  loan_payments-Unique = record {
    columns = [];
    rows_with = λ db rows. refl;
    free = λ db r h. tt;
    keep = λ db rows r h k. h;
  }

  pub employees-Unique : Unique employees_table
  unfolding employees_table
  employees-Unique = record {
    columns = (λ (r : Employee). r.email) ∷ [];
    rows_with = λ db rows. refl;
    free = λ db r h. (ground arith, tt);
    keep = λ db rows r h k. ground (arith, k.0);
  }

  pub cards-Unique : Unique cards_table
  unfolding cards_table
  cards-Unique = record {
    columns = (λ (r : Card). r.card_number) ∷ [];
    rows_with = λ db rows. refl;
    free = λ db r h. (ground arith, tt);
    keep = λ db rows r h k. ground (arith, k.0);
  }

  pub transactions-Unique : Unique transactions_table
  unfolding transactions_table
  transactions-Unique = record {
    columns = [];
    rows_with = λ db rows. refl;
    free = λ db r h. tt;
    keep = λ db rows r h k. h;
  }

  pub tickets-Unique : Unique tickets_table
  unfolding tickets_table
  tickets-Unique = record {
    columns = [];
    rows_with = λ db rows. refl;
    free = λ db r h. tt;
    keep = λ db rows r h k. h;
  }

  pub credit_scores-Unique : Unique credit_scores_table
  unfolding credit_scores_table
  credit_scores-Unique = record {
    columns = [];
    rows_with = λ db rows. refl;
    free = λ db r h. tt;
    keep = λ db rows r h k. h;
  }
