-- ===== src/Database/Tables.antt =====
-- migrations/001_initial_schema.sql: the keys and constraints of each table. Of several constraints
-- that one row violates, the first in the order types, CHECK, UNIQUE, FOREIGN KEY is reported. The
-- lengths of VARCHAR and CHAR columns are not modelled.
use corebank_api.Prelude.{String, false, not, ◌||◌, none, List, [], ◌∷◌, ltb}
use corebank_api.Database.RowEquality.{
  Customer-discrete, User-discrete, Branch-discrete, Account-discrete, Loan-discrete,
  LoanPayment-discrete, Employee-discrete, Card-discrete, Transaction-discrete,
  SupportTicket-discrete, CreditScore-discrete,
}
use corebank_api.Database.Engine.{
  Engine, dup_entry, no_referenced_row, out_of_range, check_violated,
}
use corebank_api.Database.Schema.{
  Customer, User, Branch, Account, Loan, LoanPayment, Employee, Card, Transaction, SupportTicket,
  CreditScore,
}
use corebank_api.Database.Rows.{exists, replace}
use corebank_api.Database.Statement.{Table}
use corebank_api.Database.Constraints.{
  is_negative, nullable, is_positive, holds, exceeds, clashes, first_violation, refers,
}

module _ ⦃e : Engine⦄ where
  unfoldable pub customers_table : Table Customer
  unfolding Customer-discrete
  customers_table = record {
    rows = λ db. db.customers;
    with_rows = λ db rows. record db { customers = rows };
    key = λ r. r.customer_id;
    same_row = Customer-discrete;
    violation = λ db r. first_violation (
        (nullable (exceeds 15) r.wage_declaration, out_of_range)
        ∷ (clashes (λ c. c.customer_id) (λ c. c.phone_number) r db.customers, dup_entry)
        ∷ (clashes (λ c. c.customer_id) (λ c. c.email) r db.customers, dup_entry)
        ∷ []);
    referenced = λ db r.
        exists (λ (u : User). refers r.customer_id u.customer_id) db.users
        || holds (λ (a : Account). a.customer_id) r.customer_id db.accounts
        || holds (λ (l : Loan). l.customer_id) r.customer_id db.loans
        || holds (λ (t : SupportTicket). t.customer_id) r.customer_id db.tickets
        || holds (λ (c : CreditScore). c.customer_id) r.customer_id db.credit_scores;
    on_delete = λ id db. db;
  }

  unfoldable pub users_table : Table User
  unfolding User-discrete
  users_table = record {
    rows = λ db. db.users;
    with_rows = λ db rows. record db { users = rows };
    key = λ r. r.user_id;
    same_row = User-discrete;
    violation = λ db r. first_violation (
        (clashes (λ u. u.user_id) (λ u. u.username) r db.users, dup_entry)
        ∷ (
          nullable (λ id. not (holds (λ (c : Customer). c.customer_id) id db.customers))
              r.customer_id,
          no_referenced_row,
        )
        ∷ []);
    referenced = λ db r. false;
    on_delete = λ id db. db;
  }

  unfoldable pub branches_table : Table Branch
  unfolding Branch-discrete
  branches_table = record {
    rows = λ db. db.branches;
    with_rows = λ db rows. record db { branches = rows };
    key = λ r. r.branch_id;
    same_row = Branch-discrete;
    violation = λ db r. first_violation (
        (clashes (λ b. b.branch_id) (λ b. b.branch_name) r db.branches, dup_entry)
        ∷ (clashes (λ b. b.branch_id) (λ b. b.phone_number) r db.branches, dup_entry)
        ∷ []);
    referenced = λ db r.
        holds (λ (a : Account). a.branch_id) r.branch_id db.accounts
        || holds (λ (e : Employee). e.branch_id) r.branch_id db.employees;
    on_delete = λ id db. db;
  }

  -- ON DELETE SET NULL of `fk_transaction_to`
  abbrev pub forget_receiver : String → List Transaction → List Transaction
  forget_receiver id rows =
      replace (λ t. refers id t.to_account_id) (λ t. record t { to_account_id = none }) rows

  unfoldable pub accounts_table : Table Account
  unfolding Account-discrete
  accounts_table = record {
    rows = λ db. db.accounts;
    with_rows = λ db rows. record db { accounts = rows };
    key = λ r. r.account_id;
    same_row = Account-discrete;
    violation = λ db r. first_violation (
        (exceeds 15 r.balance, out_of_range)
        ∷ (is_negative r.balance, check_violated)
        ∷ (
          not (holds (λ (c : Customer). c.customer_id) r.customer_id db.customers),
          no_referenced_row,
        )
        ∷ (not (holds (λ (b : Branch). b.branch_id) r.branch_id db.branches), no_referenced_row)
        ∷ []);
    referenced = λ db r.
        holds (λ (c : Card). c.account_id) r.account_id db.cards
        || holds (λ (t : Transaction). t.from_account_id) r.account_id db.transactions;
    on_delete = λ id db. record db { transactions = forget_receiver id db.transactions };
  }

  unfoldable pub loans_table : Table Loan
  unfolding Loan-discrete
  loans_table = record {
    rows = λ db. db.loans;
    with_rows = λ db rows. record db { loans = rows };
    key = λ r. r.loan_id;
    same_row = Loan-discrete;
    violation = λ db r. first_violation (
        (exceeds 15 r.principal_amount, out_of_range)
        ∷ (exceeds 5 r.interest_rate, out_of_range)
        ∷ (not (is_positive r.principal_amount), check_violated)
        ∷ (is_negative r.interest_rate, check_violated)
        ∷ (not (ltb r.start_date r.end_date), check_violated)
        ∷ (
          not (holds (λ (c : Customer). c.customer_id) r.customer_id db.customers),
          no_referenced_row,
        )
        ∷ []);
    referenced = λ db r. holds (λ (p : LoanPayment). p.loan_id) r.loan_id db.loan_payments;
    on_delete = λ id db. db;
  }

  unfoldable pub loan_payments_table : Table LoanPayment
  unfolding LoanPayment-discrete
  loan_payments_table = record {
    rows = λ db. db.loan_payments;
    with_rows = λ db rows. record db { loan_payments = rows };
    key = λ r. r.loan_payment_id;
    same_row = LoanPayment-discrete;
    violation = λ db r. first_violation (
        (exceeds 15 r.payment_amount, out_of_range)
        ∷ (nullable (exceeds 15) r.remaining_balance, out_of_range)
        ∷ (not (is_positive r.payment_amount), check_violated)
        ∷ (nullable is_negative r.remaining_balance, check_violated)
        ∷ (not (holds (λ (l : Loan). l.loan_id) r.loan_id db.loans), no_referenced_row)
        ∷ []);
    referenced = λ db r. false;
    on_delete = λ id db. db;
  }

  unfoldable pub employees_table : Table Employee
  unfolding Employee-discrete
  employees_table = record {
    rows = λ db. db.employees;
    with_rows = λ db rows. record db { employees = rows };
    key = λ r. r.employee_id;
    same_row = Employee-discrete;
    violation = λ db r. first_violation (
        (clashes (λ e. e.employee_id) (λ e. e.email) r db.employees, dup_entry)
        ∷ (not (holds (λ (b : Branch). b.branch_id) r.branch_id db.branches), no_referenced_row)
        ∷ []);
    referenced = λ db r. holds (λ (t : SupportTicket). t.employee_id) r.employee_id db.tickets;
    on_delete = λ id db. db;
  }

  unfoldable pub cards_table : Table Card
  unfolding Card-discrete
  cards_table = record {
    rows = λ db. db.cards;
    with_rows = λ db rows. record db { cards = rows };
    key = λ r. r.card_id;
    same_row = Card-discrete;
    violation = λ db r. first_violation (
        (clashes (λ c. c.card_id) (λ c. c.card_number) r db.cards, dup_entry)
        ∷ (not (holds (λ (a : Account). a.account_id) r.account_id db.accounts), no_referenced_row)
        ∷ []);
    referenced = λ db r. false;
    on_delete = λ id db. db;
  }

  unfoldable pub transactions_table : Table Transaction
  unfolding Transaction-discrete
  transactions_table = record {
    rows = λ db. db.transactions;
    with_rows = λ db rows. record db { transactions = rows };
    key = λ r. r.transaction_id;
    same_row = Transaction-discrete;
    violation = λ db r. first_violation (
        (exceeds 15 r.amount, out_of_range)
        ∷ (not (is_positive r.amount), check_violated)
        ∷ (
          not (holds (λ (a : Account). a.account_id) r.from_account_id db.accounts),
          no_referenced_row,
        )
        ∷ (
          nullable (λ id. not (holds (λ (a : Account). a.account_id) id db.accounts))
              r.to_account_id,
          no_referenced_row,
        )
        ∷ []);
    referenced = λ db r. false;
    on_delete = λ id db. db;
  }

  unfoldable pub tickets_table : Table SupportTicket
  unfolding SupportTicket-discrete
  tickets_table = record {
    rows = λ db. db.tickets;
    with_rows = λ db rows. record db { tickets = rows };
    key = λ r. r.ticket_id;
    same_row = SupportTicket-discrete;
    violation = λ db r. first_violation (
        (
          not (holds (λ (c : Customer). c.customer_id) r.customer_id db.customers),
          no_referenced_row,
        )
        ∷ (
          not (holds (λ (e : Employee). e.employee_id) r.employee_id db.employees),
          no_referenced_row,
        )
        ∷ []);
    referenced = λ db r. false;
    on_delete = λ id db. db;
  }

  unfoldable pub credit_scores_table : Table CreditScore
  unfolding CreditScore-discrete
  credit_scores_table = record {
    rows = λ db. db.credit_scores;
    with_rows = λ db rows. record db { credit_scores = rows };
    key = λ r. r.credit_score_id;
    same_row = CreditScore-discrete;
    violation = λ db r. first_violation (
        (exceeds 5 r.score, out_of_range)
        ∷ (
          not (holds (λ (c : Customer). c.customer_id) r.customer_id db.customers),
          no_referenced_row,
        )
        ∷ []);
    referenced = λ db r. false;
    on_delete = λ id db. db;
  }
