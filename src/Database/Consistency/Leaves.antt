-- ===== src/Database/Consistency/Leaves.antt =====
-- The tables that no other table refers to, for their statements within the database.
use corebank_api.Database.Consistency.Whole.{Whole}
use corebank_api.Database.Consistency.Wholes.{tables}
use corebank_api.Database.Engine.{Engine}
use corebank_api.Database.Tables.{
  credit_scores_table, transactions_table, users_table, cards_table, loan_payments_table,
  tickets_table,
}
use corebank_api.Database.Consistency.Uniques.{
  cards-Unique, transactions-Unique, users-Unique, tickets-Unique, loan_payments-Unique,
  credit_scores-Unique,
}

module _ ⦃e : Engine⦄ where
  pub users-Whole : Whole users_table
  unfolding tables
  users-Whole = record {
    own = users-Unique;
    part = λ db c. c.users;
    grow = λ db rows c own g. record {
      customers = c.customers;
      users = own;
      branches = c.branches;
      accounts = c.accounts;
      loans = c.loans;
      loan_payments = c.loan_payments;
      employees = c.employees;
      cards = c.cards;
      transactions = c.transactions;
      tickets = c.tickets;
      credit_scores = c.credit_scores;
    };
    drop = λ db id c own free. record {
      customers = c.customers;
      users = own;
      branches = c.branches;
      accounts = c.accounts;
      loans = c.loans;
      loan_payments = c.loan_payments;
      employees = c.employees;
      cards = c.cards;
      transactions = c.transactions;
      tickets = c.tickets;
      credit_scores = c.credit_scores;
    };
  }

  pub loan_payments-Whole : Whole loan_payments_table
  unfolding tables
  loan_payments-Whole = record {
    own = loan_payments-Unique;
    part = λ db c. c.loan_payments;
    grow = λ db rows c own g. record {
      customers = c.customers;
      users = c.users;
      branches = c.branches;
      accounts = c.accounts;
      loans = c.loans;
      loan_payments = own;
      employees = c.employees;
      cards = c.cards;
      transactions = c.transactions;
      tickets = c.tickets;
      credit_scores = c.credit_scores;
    };
    drop = λ db id c own free. record {
      customers = c.customers;
      users = c.users;
      branches = c.branches;
      accounts = c.accounts;
      loans = c.loans;
      loan_payments = own;
      employees = c.employees;
      cards = c.cards;
      transactions = c.transactions;
      tickets = c.tickets;
      credit_scores = c.credit_scores;
    };
  }

  pub cards-Whole : Whole cards_table
  unfolding tables
  cards-Whole = record {
    own = cards-Unique;
    part = λ db c. c.cards;
    grow = λ db rows c own g. record {
      customers = c.customers;
      users = c.users;
      branches = c.branches;
      accounts = c.accounts;
      loans = c.loans;
      loan_payments = c.loan_payments;
      employees = c.employees;
      cards = own;
      transactions = c.transactions;
      tickets = c.tickets;
      credit_scores = c.credit_scores;
    };
    drop = λ db id c own free. record {
      customers = c.customers;
      users = c.users;
      branches = c.branches;
      accounts = c.accounts;
      loans = c.loans;
      loan_payments = c.loan_payments;
      employees = c.employees;
      cards = own;
      transactions = c.transactions;
      tickets = c.tickets;
      credit_scores = c.credit_scores;
    };
  }

  pub transactions-Whole : Whole transactions_table
  unfolding tables
  transactions-Whole = record {
    own = transactions-Unique;
    part = λ db c. c.transactions;
    grow = λ db rows c own g. record {
      customers = c.customers;
      users = c.users;
      branches = c.branches;
      accounts = c.accounts;
      loans = c.loans;
      loan_payments = c.loan_payments;
      employees = c.employees;
      cards = c.cards;
      transactions = own;
      tickets = c.tickets;
      credit_scores = c.credit_scores;
    };
    drop = λ db id c own free. record {
      customers = c.customers;
      users = c.users;
      branches = c.branches;
      accounts = c.accounts;
      loans = c.loans;
      loan_payments = c.loan_payments;
      employees = c.employees;
      cards = c.cards;
      transactions = own;
      tickets = c.tickets;
      credit_scores = c.credit_scores;
    };
  }

  pub tickets-Whole : Whole tickets_table
  unfolding tables
  tickets-Whole = record {
    own = tickets-Unique;
    part = λ db c. c.tickets;
    grow = λ db rows c own g. record {
      customers = c.customers;
      users = c.users;
      branches = c.branches;
      accounts = c.accounts;
      loans = c.loans;
      loan_payments = c.loan_payments;
      employees = c.employees;
      cards = c.cards;
      transactions = c.transactions;
      tickets = own;
      credit_scores = c.credit_scores;
    };
    drop = λ db id c own free. record {
      customers = c.customers;
      users = c.users;
      branches = c.branches;
      accounts = c.accounts;
      loans = c.loans;
      loan_payments = c.loan_payments;
      employees = c.employees;
      cards = c.cards;
      transactions = c.transactions;
      tickets = own;
      credit_scores = c.credit_scores;
    };
  }

  pub credit_scores-Whole : Whole credit_scores_table
  unfolding tables
  credit_scores-Whole = record {
    own = credit_scores-Unique;
    part = λ db c. c.credit_scores;
    grow = λ db rows c own g. record {
      customers = c.customers;
      users = c.users;
      branches = c.branches;
      accounts = c.accounts;
      loans = c.loans;
      loan_payments = c.loan_payments;
      employees = c.employees;
      cards = c.cards;
      transactions = c.transactions;
      tickets = c.tickets;
      credit_scores = own;
    };
    drop = λ db id c own free. record {
      customers = c.customers;
      users = c.users;
      branches = c.branches;
      accounts = c.accounts;
      loans = c.loans;
      loan_payments = c.loan_payments;
      employees = c.employees;
      cards = c.cards;
      transactions = c.transactions;
      tickets = c.tickets;
      credit_scores = own;
    };
  }
