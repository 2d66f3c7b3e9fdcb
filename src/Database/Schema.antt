-- ===== src/Database/Schema.antt =====
-- migrations/001_initial_schema.sql: a record for each table. An ENUM column is a data type, a
-- nullable column an Option, DECIMAL(p, 2) a number of hundredths, DATE and DATETIME a number that
-- only order and equality are asked of.
use corebank_api.Prelude.{ℕ, String, Option, List, ℤ, Bool}

pub data Role : Type 0 where
  admin user : Role

pub data AccountType : Type 0 where
  checking savings : AccountType

pub data LoanType : Type 0 where
  home auto personal : LoanType

pub data LoanStatus : Type 0 where
  active paid_off default : LoanStatus

pub data CardType : Type 0 where
  debit credit : CardType

pub data CardStatus : Type 0 where
  active blocked expired : CardStatus

pub data TransactionType : Type 0 where
  deposit withdrawal transfer : TransactionType

pub data TicketStatus : Type 0 where
  open_status in_progress resolved : TicketStatus

pub record Customer : Type 0 where
  pub customer_id : String
  pub first_name : String
  pub last_name : String
  pub date_of_birth : ℕ
  pub phone_number : String
  pub email : String
  pub address_line1 : String
  pub address_line2 : Option String
  pub city : String
  pub zip_code : String
  pub wage_declaration : Option ℤ

pub record User : Type 0 where
  pub user_id : String
  pub username : String
  pub password : String
  pub role : Role
  pub customer_id : Option String

pub record Branch : Type 0 where
  pub branch_id : String
  pub branch_name : String
  pub address_line1 : String
  pub address_line2 : Option String
  pub city : String
  pub zip_code : String
  pub phone_number : String

pub record Account : Type 0 where
  pub account_id : String
  pub customer_id : String
  pub account_type : AccountType
  pub balance : ℤ
  pub creation_date : ℕ
  pub branch_id : String

pub record Loan : Type 0 where
  pub loan_id : String
  pub customer_id : String
  pub loan_type : LoanType
  pub principal_amount : ℤ
  pub interest_rate : ℤ
  pub start_date : ℕ
  pub end_date : ℕ
  pub status : LoanStatus

pub record LoanPayment : Type 0 where
  pub loan_payment_id : String
  pub loan_id : String
  pub payment_date : ℕ
  pub payment_amount : ℤ
  pub remaining_balance : Option ℤ

pub record Employee : Type 0 where
  pub employee_id : String
  pub branch_id : String
  pub first_name : String
  pub last_name : String
  pub position : String
  pub hire_date : ℕ
  pub phone_number : String
  pub email : String

pub record Card : Type 0 where
  pub card_id : String
  pub account_id : String
  pub card_type : CardType
  pub card_number : String
  pub expiration_date : ℕ
  pub cvv : String
  pub status : CardStatus

pub record Transaction : Type 0 where
  pub transaction_id : String
  pub from_account_id : String
  pub to_account_id : Option String
  pub transaction_type : TransactionType
  pub amount : ℤ
  pub transaction_timestamp : ℕ

pub record SupportTicket : Type 0 where
  pub ticket_id : String
  pub customer_id : String
  pub employee_id : String
  pub issue_description : String
  pub status : TicketStatus
  pub created_date : ℕ
  pub resolved_date : Option ℕ

pub record CreditScore : Type 0 where
  pub credit_score_id : String
  pub customer_id : String
  pub score : ℤ
  pub risk_category : String
  pub computed_by_system : Option Bool

pub record Db : Type 0 where
  pub customers : List Customer
  pub users : List User
  pub branches : List Branch
  pub accounts : List Account
  pub loans : List Loan
  pub loan_payments : List LoanPayment
  pub employees : List Employee
  pub cards : List Card
  pub transactions : List Transaction
  pub tickets : List SupportTicket
  pub credit_scores : List CreditScore
