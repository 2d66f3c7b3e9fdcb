-- ===== src/Database/Consistency/Children.antt =====
-- The FOREIGN KEY columns of each table of migrations/001_initial_schema.sql, by the table that they
-- refer to.
use corebank_api.Database.Consistency.Edges.{Edge}
use corebank_api.Database.Engine.{Engine}
use corebank_api.Database.Tables.{
  credit_scores_table, transactions_table, users_table, cards_table, loan_payments_table,
  tickets_table, employees_table, customers_table, branches_table, loans_table, accounts_table,
}
use corebank_api.Database.Schema.{
  User, CreditScore, Transaction, Card, LoanPayment, SupportTicket, Loan, Account, Employee,
}
use corebank_api.Prelude.{refl, arith, [], ◌∷◌, some}

module _ ⦃e : Engine⦄ where
  pub customers-users-Edge : Edge customers_table users_table ((λ (u : User). u.customer_id) ∷ [])
  unfolding customers_table users_table
  customers-users-Edge = record {
    rows_kept = λ db rows. refl;
    out = λ db c h. (ground arith, tt);
    into = λ db rows c h k. ground (arith, k.0);
  }

  pub customers-accounts-Edge :
      Edge customers_table accounts_table ((λ (u : Account). some u.customer_id) ∷ [])
  unfolding customers_table accounts_table
  customers-accounts-Edge = record {
    rows_kept = λ db rows. refl;
    out = λ db c h. (ground arith, tt);
    into = λ db rows c h k. ground (arith, k.0);
  }

  pub customers-loans-Edge :
      Edge customers_table loans_table ((λ (u : Loan). some u.customer_id) ∷ [])
  unfolding customers_table loans_table
  customers-loans-Edge = record {
    rows_kept = λ db rows. refl;
    out = λ db c h. (ground arith, tt);
    into = λ db rows c h k. ground (arith, k.0);
  }

  pub customers-tickets-Edge :
      Edge customers_table tickets_table ((λ (u : SupportTicket). some u.customer_id) ∷ [])
  unfolding customers_table tickets_table
  customers-tickets-Edge = record {
    rows_kept = λ db rows. refl;
    out = λ db c h. (ground arith, tt);
    into = λ db rows c h k. ground (arith, k.0);
  }

  pub customers-credit_scores-Edge :
      Edge customers_table credit_scores_table ((λ (u : CreditScore). some u.customer_id) ∷ [])
  unfolding customers_table credit_scores_table
  customers-credit_scores-Edge = record {
    rows_kept = λ db rows. refl;
    out = λ db c h. (ground arith, tt);
    into = λ db rows c h k. ground (arith, k.0);
  }

  pub branches-accounts-Edge :
      Edge branches_table accounts_table ((λ (u : Account). some u.branch_id) ∷ [])
  unfolding branches_table accounts_table
  branches-accounts-Edge = record {
    rows_kept = λ db rows. refl;
    out = λ db c h. (ground arith, tt);
    into = λ db rows c h k. ground (arith, k.0);
  }

  pub branches-employees-Edge :
      Edge branches_table employees_table ((λ (u : Employee). some u.branch_id) ∷ [])
  unfolding branches_table employees_table
  branches-employees-Edge = record {
    rows_kept = λ db rows. refl;
    out = λ db c h. (ground arith, tt);
    into = λ db rows c h k. ground (arith, k.0);
  }

  pub accounts-cards-Edge : Edge accounts_table cards_table ((λ (u : Card). some u.account_id) ∷ [])
  unfolding accounts_table cards_table
  accounts-cards-Edge = record {
    rows_kept = λ db rows. refl;
    out = λ db c h. (ground arith, tt);
    into = λ db rows c h k. ground (arith, k.0);
  }

  pub accounts-transactions-Edge :
      Edge accounts_table transactions_table (
        (λ (u : Transaction). some u.from_account_id) ∷ (λ (u : Transaction). u.to_account_id) ∷ [])
  unfolding accounts_table transactions_table
  accounts-transactions-Edge = record {
    rows_kept = λ db rows. refl;
    out = λ db c h. (ground arith, (ground arith, tt));
    into = λ db rows c h k. ground (arith, k.0, k.1.0);
  }

  pub loans-loan_payments-Edge :
      Edge loans_table loan_payments_table ((λ (u : LoanPayment). some u.loan_id) ∷ [])
  unfolding loans_table loan_payments_table
  loans-loan_payments-Edge = record {
    rows_kept = λ db rows. refl;
    out = λ db c h. (ground arith, tt);
    into = λ db rows c h k. ground (arith, k.0);
  }

  pub employees-tickets-Edge :
      Edge employees_table tickets_table ((λ (u : SupportTicket). some u.employee_id) ∷ [])
  unfolding employees_table tickets_table
  employees-tickets-Edge = record {
    rows_kept = λ db rows. refl;
    out = λ db c h. (ground arith, tt);
    into = λ db rows c h k. ground (arith, k.0);
  }
