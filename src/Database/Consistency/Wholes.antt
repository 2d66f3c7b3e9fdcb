-- ===== src/Database/Consistency/Wholes.antt =====
-- The tables that others refer to by a foreign key, for their statements within the database.
use corebank_api.Database.Consistency.Whole.{Whole}
use corebank_api.Database.Consistency.Edges.{edge-Grows, Edge-left}
use corebank_api.Database.Engine.{Engine}
use corebank_api.Database.Tables.{
  accounts_table, credit_scores_table, transactions_table, employees_table, users_table,
  cards_table, loan_payments_table, branches_table, loans_table, tickets_table, customers_table,
}
use corebank_api.Database.Consistency.Uniques.{
  loans-Unique, branches-Unique, employees-Unique, customers-Unique,
}
use corebank_api.Database.Consistency.Children.{
  customers-credit_scores-Edge, customers-tickets-Edge, branches-employees-Edge,
  customers-loans-Edge, loans-loan_payments-Edge, employees-tickets-Edge, customers-accounts-Edge,
  branches-accounts-Edge, customers-users-Edge,
}
use corebank_api.Database.Statement.{has_key}
use corebank_api.Prelude.{arith}

-- The definitions of all tables, to see that a change of one table is none of another.
unfoldable pub tables : Unit {0}
unfolding customers_table users_table branches_table accounts_table loans_table loan_payments_table
    employees_table cards_table transactions_table tickets_table credit_scores_table has_key
tables = tt

module _ ⦃e : Engine⦄ where
  pub customers-Whole : Whole customers_table
  unfolding tables
  customers-Whole = record {
    own = customers-Unique;
    part = λ db c. c.customers;
    grow = λ db rows c own g. record {
      customers = own;
      users = edge-Grows customers_table users_table customers-users-Edge db rows c.users g;
      branches = c.branches;
      accounts =
          edge-Grows customers_table accounts_table customers-accounts-Edge db rows c.accounts g;
      loans = edge-Grows customers_table loans_table customers-loans-Edge db rows c.loans g;
      loan_payments = c.loan_payments;
      employees = c.employees;
      cards = c.cards;
      transactions = c.transactions;
      tickets = edge-Grows customers_table tickets_table customers-tickets-Edge db rows c.tickets g;
      credit_scores =
          edge-Grows customers_table credit_scores_table customers-credit_scores-Edge db rows
            c.credit_scores g;
    };
    drop = λ db id c own free. record {
      customers = own;
      users =
          Edge-left customers_table users_table customers-users-Edge db id c.users
            (λ x k. (ground (arith, k), tt)) free;
      branches = c.branches;
      accounts =
          Edge-left customers_table accounts_table customers-accounts-Edge db id c.accounts
            (λ x k. (ground (arith, k), tt)) free;
      loans =
          Edge-left customers_table loans_table customers-loans-Edge db id c.loans
            (λ x k. (ground (arith, k), tt)) free;
      loan_payments = c.loan_payments;
      employees = c.employees;
      cards = c.cards;
      transactions = c.transactions;
      tickets =
          Edge-left customers_table tickets_table customers-tickets-Edge db id c.tickets
            (λ x k. (ground (arith, k), tt)) free;
      credit_scores =
          Edge-left customers_table credit_scores_table customers-credit_scores-Edge db id
            c.credit_scores (λ x k. (ground (arith, k), tt)) free;
    };
  }

  pub branches-Whole : Whole branches_table
  unfolding tables
  branches-Whole = record {
    own = branches-Unique;
    part = λ db c. c.branches;
    grow = λ db rows c own g. record {
      customers = c.customers;
      users = c.users;
      branches = own;
      accounts =
          edge-Grows branches_table accounts_table branches-accounts-Edge db rows c.accounts g;
      loans = c.loans;
      loan_payments = c.loan_payments;
      employees =
          edge-Grows branches_table employees_table branches-employees-Edge db rows c.employees g;
      cards = c.cards;
      transactions = c.transactions;
      tickets = c.tickets;
      credit_scores = c.credit_scores;
    };
    drop = λ db id c own free. record {
      customers = c.customers;
      users = c.users;
      branches = own;
      accounts =
          Edge-left branches_table accounts_table branches-accounts-Edge db id c.accounts
            (λ x k. (ground (arith, k), tt)) free;
      loans = c.loans;
      loan_payments = c.loan_payments;
      employees =
          Edge-left branches_table employees_table branches-employees-Edge db id c.employees
            (λ x k. (ground (arith, k), tt)) free;
      cards = c.cards;
      transactions = c.transactions;
      tickets = c.tickets;
      credit_scores = c.credit_scores;
    };
  }

  pub loans-Whole : Whole loans_table
  unfolding tables
  loans-Whole = record {
    own = loans-Unique;
    part = λ db c. c.loans;
    grow = λ db rows c own g. record {
      customers = c.customers;
      users = c.users;
      branches = c.branches;
      accounts = c.accounts;
      loans = own;
      loan_payments =
          edge-Grows loans_table loan_payments_table loans-loan_payments-Edge db rows
            c.loan_payments g;
      employees = c.employees;
      cards = c.cards;
      transactions = c.transactions;
      tickets = c.tickets;
      credit_scores = c.credit_scores;
    };
    drop = λ db id c own free. record {
      customers = c.customers;
      users = c.users;
      branches = c.branches;
      accounts = c.accounts;
      loans = own;
      loan_payments =
          Edge-left loans_table loan_payments_table loans-loan_payments-Edge db id c.loan_payments
            (λ x k. (ground (arith, k), tt)) free;
      employees = c.employees;
      cards = c.cards;
      transactions = c.transactions;
      tickets = c.tickets;
      credit_scores = c.credit_scores;
    };
  }

  pub employees-Whole : Whole employees_table
  unfolding tables
  employees-Whole = record {
    own = employees-Unique;
    part = λ db c. c.employees;
    grow = λ db rows c own g. record {
      customers = c.customers;
      users = c.users;
      branches = c.branches;
      accounts = c.accounts;
      loans = c.loans;
      loan_payments = c.loan_payments;
      employees = own;
      cards = c.cards;
      transactions = c.transactions;
      tickets = edge-Grows employees_table tickets_table employees-tickets-Edge db rows c.tickets g;
      credit_scores = c.credit_scores;
    };
    drop = λ db id c own free. record {
      customers = c.customers;
      users = c.users;
      branches = c.branches;
      accounts = c.accounts;
      loans = c.loans;
      loan_payments = c.loan_payments;
      employees = own;
      cards = c.cards;
      transactions = c.transactions;
      tickets =
          Edge-left employees_table tickets_table employees-tickets-Edge db id c.tickets
            (λ x k. (ground (arith, k), tt)) free;
      credit_scores = c.credit_scores;
    };
  }
