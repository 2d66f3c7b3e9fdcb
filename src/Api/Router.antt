-- ===== src/Api/Router.antt =====
-- A request of the API that names one view of app/api, with its path and body; `handle` is the dispatch
-- of the blueprints. The login, which has no gate, `me`, which has one, and the health probes stand in
-- Auth and Health.
pub mod Access
pub mod Consistency
use corebank_api.Api.Accounts as AccountsViews
use corebank_api.Api.Branches as BranchesViews
use corebank_api.Api.Cards as CardsViews
use corebank_api.Api.CreditScores as CreditScoresViews
use corebank_api.Api.Customers as CustomersViews
use corebank_api.Api.CustomerSupport as CustomerSupportViews
use corebank_api.Api.Employees as EmployeesViews
use corebank_api.Api.LoanPayments as LoanPaymentsViews
use corebank_api.Api.Loans as LoansViews
use corebank_api.Api.Transactions as TransactionsViews
use corebank_api.Api.Users as UsersViews
use corebank_api.Services.Branch
use corebank_api.Services.Card
use corebank_api.Services.CreditScore
use corebank_api.Services.Customer
use corebank_api.Services.Employee
use corebank_api.Services.LoanPayment
use corebank_api.Services.Loan
use corebank_api.Repositories.Branches
use corebank_api.Repositories.CreditScores
use corebank_api.Repositories.Customers
use corebank_api.Repositories.Employees
use corebank_api.Repositories.Users
use corebank_api.Prelude.{ℤ, Option, ℕ, List, String}
use corebank_api.Database.Engine.{Engine}
use corebank_api.Database.Schema.{
  Transaction, Loan, LoanPayment, Employee, SupportTicket, Role, Customer, CreditScore, LoanStatus,
  TicketStatus, Branch, CardStatus, Account, AccountType,
}
use corebank_api.Security.{View}
use corebank_api.Money.{Decimal}
use corebank_api.Repositories.Branches.{BranchConditions}
use corebank_api.Repositories.Cards.{SafeCard}
use corebank_api.Services.Auth.{Hasher}
use corebank_api.Repositories.SupportTickets.{Resolver}
use corebank_api.Repositories.Transactions.{HighValue}
use corebank_api.Repositories.Users.{PublicUser}

pub data Request : Type 0 where
  accounts_get_all : Request
  accounts_post : String → AccountType → String → String → ℕ → Request
  accounts_get : String → Request
  accounts_delete : String → Request
  accounts_put_balance : String → Decimal → Request
  branches_get_all : Request
  branches_post : Branch.NewBranch → String → Request
  branches_get_conditions : ℕ → ℕ → Request
  branches_get : String → Request
  branches_put : String → List Branches.Assignment → Request
  branches_delete : String → Request
  cards_get_all : Request
  cards_post : Card.NewCard → String → Request
  cards_get : String → Request
  cards_delete : String → Request
  cards_put_status : String → CardStatus → Request
  credit_scores_get_all : Request
  credit_scores_post : CreditScore.NewCreditScore → String → Request
  credit_scores_get : String → Request
  credit_scores_put : String → List CreditScores.Assignment → Request
  credit_scores_delete : String → Request
  customers_get_all : Request
  customers_post : Customer.NewCustomer → String → Request
  customers_get : String → Request
  customers_put : String → List Customers.Assignment → Request
  customers_delete : String → Request
  customer_support_get_all : Request
  customer_support_post : Option String → String → String → String → ℕ → Request
  customer_support_get_top_resolvers : Request
  customer_support_get : String → Request
  customer_support_delete : String → Request
  customer_support_put_status : String → TicketStatus → ℕ → Request
  employees_get_all : Request
  employees_post : Employee.NewEmployee → String → Request
  employees_get : String → Request
  employees_put : String → List Employees.Assignment → Request
  employees_delete : String → Request
  loan_payments_get_all : Request
  loan_payments_post : LoanPayment.NewLoanPayment → String → ℕ → Request
  loan_payments_get_by_loan : String → Request
  loan_payments_get : String → Request
  loan_payments_delete : String → Request
  loans_get_all : Request
  loans_post : Loan.NewLoan → String → Request
  loans_get : String → Request
  loans_delete : String → Request
  loans_put_status : String → LoanStatus → Request
  transactions_get_all : Request
  transactions_get : String → Request
  transactions_delete : String → Request
  transactions_get_by_account : String → Request
  transactions_post_transfer : String → String → Decimal → String → ℕ → Request
  transactions_get_high_value : ℤ → Request
  users_get_all : Request
  users_post : Hasher → String → String → Role → Option String → String → String → Request
  users_get : String → Request
  users_put : Hasher → String → List Users.Assignment → String → Request
  users_delete : String → Request

-- The body of a successful response.
unfoldable pub Answer : Request → Type 0
Answer accounts_get_all = List Account
Answer (accounts_post _ _ _ _ _) = Account
Answer (accounts_get _) = Account
Answer (accounts_delete _) = Unit {0}
Answer (accounts_put_balance _ _) = Option Account
Answer branches_get_all = List Branch
Answer (branches_post _ _) = Branch
Answer (branches_get_conditions _ _) = List BranchConditions
Answer (branches_get _) = Branch
Answer (branches_put _ _) = Option Branch
Answer (branches_delete _) = Unit {0}
Answer cards_get_all = List SafeCard
Answer (cards_post _ _) = Option SafeCard
Answer (cards_get _) = Option SafeCard
Answer (cards_delete _) = Unit {0}
Answer (cards_put_status _ _) = Option SafeCard
Answer credit_scores_get_all = List CreditScore
Answer (credit_scores_post _ _) = CreditScore
Answer (credit_scores_get _) = CreditScore
Answer (credit_scores_put _ _) = Option CreditScore
Answer (credit_scores_delete _) = Unit {0}
Answer customers_get_all = List Customer
Answer (customers_post _ _) = Customer
Answer (customers_get _) = Customer
Answer (customers_put _ _) = Option Customer
Answer (customers_delete _) = Unit {0}
Answer customer_support_get_all = List SupportTicket
Answer (customer_support_post _ _ _ _ _) = SupportTicket
Answer customer_support_get_top_resolvers = List Resolver
Answer (customer_support_get _) = SupportTicket
Answer (customer_support_delete _) = Unit {0}
Answer (customer_support_put_status _ _ _) = Option SupportTicket
Answer employees_get_all = List Employee
Answer (employees_post _ _) = Employee
Answer (employees_get _) = Employee
Answer (employees_put _ _) = Option Employee
Answer (employees_delete _) = Unit {0}
Answer loan_payments_get_all = List LoanPayment
Answer (loan_payments_post _ _ _) = LoanPayment
Answer (loan_payments_get_by_loan _) = List LoanPayment
Answer (loan_payments_get _) = LoanPayment
Answer (loan_payments_delete _) = Unit {0}
Answer loans_get_all = List Loan
Answer (loans_post _ _) = Loan
Answer (loans_get _) = Loan
Answer (loans_delete _) = Unit {0}
Answer (loans_put_status _ _) = Option Loan
Answer transactions_get_all = List Transaction
Answer (transactions_get _) = Transaction
Answer (transactions_delete _) = Unit {0}
Answer (transactions_get_by_account _) = List Transaction
Answer (transactions_post_transfer _ _ _ _ _) = Transaction
Answer (transactions_get_high_value _) = List HighValue
Answer users_get_all = List PublicUser
Answer (users_post _ _ _ _ _ _ _) = PublicUser
Answer (users_get _) = PublicUser
Answer (users_put _ _ _ _) = Option PublicUser
Answer (users_delete _) = Unit {0}

module _ ⦃e : Engine⦄ where
  unfoldable pub handle : (r : Request) → View (Answer r)
  unfolding Answer AccountsViews.get_all AccountsViews.post AccountsViews.get AccountsViews.delete
      AccountsViews.put_balance BranchesViews.get_all BranchesViews.post
      BranchesViews.get_conditions BranchesViews.get BranchesViews.put BranchesViews.delete
      CardsViews.get_all CardsViews.post CardsViews.get CardsViews.delete CardsViews.put_status
      CreditScoresViews.get_all CreditScoresViews.post CreditScoresViews.get CreditScoresViews.put
      CreditScoresViews.delete CustomersViews.get_all CustomersViews.post CustomersViews.get
      CustomersViews.put CustomersViews.delete CustomerSupportViews.get_all
      CustomerSupportViews.post CustomerSupportViews.get_top_resolvers CustomerSupportViews.get
      CustomerSupportViews.delete CustomerSupportViews.put_status EmployeesViews.get_all
      EmployeesViews.post EmployeesViews.get EmployeesViews.put EmployeesViews.delete
      LoanPaymentsViews.get_all LoanPaymentsViews.post LoanPaymentsViews.get_by_loan
      LoanPaymentsViews.get LoanPaymentsViews.delete LoansViews.get_all LoansViews.post
      LoansViews.get LoansViews.delete LoansViews.put_status TransactionsViews.get_all
      TransactionsViews.get TransactionsViews.delete TransactionsViews.get_by_account
      TransactionsViews.post_transfer TransactionsViews.get_high_value UsersViews.get_all
      UsersViews.post UsersViews.get UsersViews.put UsersViews.delete
  handle accounts_get_all = AccountsViews.get_all
  handle (accounts_post customer_id account_type branch_id id now) =
      AccountsViews.post customer_id account_type branch_id id now
  handle (accounts_get id) = AccountsViews.get id
  handle (accounts_delete id) = AccountsViews.delete id
  handle (accounts_put_balance id balance) = AccountsViews.put_balance id balance
  handle branches_get_all = BranchesViews.get_all
  handle (branches_post new_row id) = BranchesViews.post new_row id
  handle (branches_get_conditions min_employees min_accounts) =
      BranchesViews.get_conditions min_employees min_accounts
  handle (branches_get id) = BranchesViews.get id
  handle (branches_put id fields) = BranchesViews.put id fields
  handle (branches_delete id) = BranchesViews.delete id
  handle cards_get_all = CardsViews.get_all
  handle (cards_post new_row id) = CardsViews.post new_row id
  handle (cards_get id) = CardsViews.get id
  handle (cards_delete id) = CardsViews.delete id
  handle (cards_put_status id status) = CardsViews.put_status id status
  handle credit_scores_get_all = CreditScoresViews.get_all
  handle (credit_scores_post new_row id) = CreditScoresViews.post new_row id
  handle (credit_scores_get id) = CreditScoresViews.get id
  handle (credit_scores_put id fields) = CreditScoresViews.put id fields
  handle (credit_scores_delete id) = CreditScoresViews.delete id
  handle customers_get_all = CustomersViews.get_all
  handle (customers_post new_row id) = CustomersViews.post new_row id
  handle (customers_get id) = CustomersViews.get id
  handle (customers_put id fields) = CustomersViews.put id fields
  handle (customers_delete id) = CustomersViews.delete id
  handle customer_support_get_all = CustomerSupportViews.get_all
  handle (customer_support_post customer_id employee_id issue_description id now) =
      CustomerSupportViews.post customer_id employee_id issue_description id now
  handle customer_support_get_top_resolvers = CustomerSupportViews.get_top_resolvers
  handle (customer_support_get id) = CustomerSupportViews.get id
  handle (customer_support_delete id) = CustomerSupportViews.delete id
  handle (customer_support_put_status id status now) = CustomerSupportViews.put_status id status now
  handle employees_get_all = EmployeesViews.get_all
  handle (employees_post new_row id) = EmployeesViews.post new_row id
  handle (employees_get id) = EmployeesViews.get id
  handle (employees_put id fields) = EmployeesViews.put id fields
  handle (employees_delete id) = EmployeesViews.delete id
  handle loan_payments_get_all = LoanPaymentsViews.get_all
  handle (loan_payments_post new_row id now) = LoanPaymentsViews.post new_row id now
  handle (loan_payments_get_by_loan loan_id) = LoanPaymentsViews.get_by_loan loan_id
  handle (loan_payments_get id) = LoanPaymentsViews.get id
  handle (loan_payments_delete id) = LoanPaymentsViews.delete id
  handle loans_get_all = LoansViews.get_all
  handle (loans_post new_row id) = LoansViews.post new_row id
  handle (loans_get id) = LoansViews.get id
  handle (loans_delete id) = LoansViews.delete id
  handle (loans_put_status id status) = LoansViews.put_status id status
  handle transactions_get_all = TransactionsViews.get_all
  handle (transactions_get id) = TransactionsViews.get id
  handle (transactions_delete id) = TransactionsViews.delete id
  handle (transactions_get_by_account account_id) = TransactionsViews.get_by_account account_id
  handle (transactions_post_transfer sender_id receiver_id amount id now) =
      TransactionsViews.post_transfer sender_id receiver_id amount id now
  handle (transactions_get_high_value minimum) = TransactionsViews.get_high_value minimum
  handle users_get_all = UsersViews.get_all
  handle (users_post hasher name password role customer_id id salt) =
      UsersViews.post hasher name password role customer_id id salt
  handle (users_get id) = UsersViews.get id
  handle (users_put hasher id fields salt) = UsersViews.put hasher id fields salt
  handle (users_delete id) = UsersViews.delete id
