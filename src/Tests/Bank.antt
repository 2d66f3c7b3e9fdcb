-- ===== src/Tests/Bank.antt =====
-- A server and a small bank, for the runs of the services.
use corebank_api.Prelude.{
  str_eq, ◌||◌, [], negsuc, ◌==◌, pos, if◌then◌else◌, ◌∷◌, some, refl, none, false, String, ℕ,
}
use corebank_api.Database.Schema.{
  checking, open_status, Account, Customer, user, SupportTicket, Branch, User, Db,
}
use corebank_api.Money.{Decimal}
use corebank_api.Database.Engine.{same, Engine, IsPyMysql}
use corebank_api.Database.Uow.{World}
use corebank_api.Services.Helpers.{Actor}
use corebank_api.Errors.{
  operational_error, programming_error, data_error, integrity_error, ErrorClass,
}
use corebank_api.Database.Tables.{accounts_table}
use corebank_api.Repositories.Accounts.Money.{IsSound}
use corebank_api.Services.Auth.{Hasher}

-- PyMySQL's error classes.
abbrev pub mysql_class : ℕ → ErrorClass
mysql_class n =
    if n == 1062 || n == 1451 || n == 1452
    then integrity_error
    else if n == 1264
    then data_error
    else if n == 1064
    then programming_error
    else operational_error

-- A server that compares texts as they are.
instance abbrev pub mysql : Engine
mysql = record { found_rows = false; collation_key = λ s. s; error_class = mysql_class }

pub mysql-IsPyMysql : IsPyMysql mysql
mysql-IsPyMysql = record {
  duplicates = refl;
  references = refl;
  referenced = refl;
  ranges = refl;
  checks = refl;
  changed_rows = refl;
}

abbrev pub customer : String → String → Customer
customer id phone = record {
  customer_id = id;
  first_name = "Ada";
  last_name = "Byron";
  date_of_birth = 18151210;
  phone_number = phone;
  email = phone;
  address_line1 = "1 Main St";
  address_line2 = none;
  city = "London";
  zip_code = "W1";
  wage_declaration = some (pos 0);
}

abbrev pub branch : Branch
branch = record {
  branch_id = "b1";
  branch_name = "Main";
  address_line1 = "1 Main St";
  address_line2 = none;
  city = "London";
  zip_code = "W1";
  phone_number = "020";
}

abbrev pub account : String → String → ℕ → Account
account id owner cents = record {
  account_id = id;
  customer_id = owner;
  account_type = checking;
  balance = pos cents;
  creation_date = 1;
  branch_id = "b1";
}

abbrev pub ticket : SupportTicket
ticket = record {
  ticket_id = "t1";
  customer_id = "c1";
  employee_id = "e1";
  issue_description = "card";
  status = open_status;
  created_date = 1;
  resolved_date = none;
}

abbrev pub alice : User
alice = record {
  user_id = "u1";
  username = "alice";
  password = "hash:alice123";
  role = user;
  customer_id = some "c1";
}

abbrev pub bank : Db
bank = record {
  customers = customer "c1" "1" ∷ customer "c2" "2" ∷ [];
  users = alice ∷ [];
  branches = branch ∷ [];
  accounts = account "a1" "c1" 10000 ∷ account "a2" "c2" 500 ∷ [];
  loans = [];
  loan_payments = [];
  employees = [];
  cards = [];
  transactions = [];
  tickets = ticket ∷ [];
  credit_scores = [];
}

abbrev pub world : World
world = record { committed = bank; borrowed = 0 }

abbrev pub owner : Actor
owner = record { user_id = "u1"; role = some user; customer_id = some "c1" }

-- 20.00
abbrev pub twenty : Decimal
twenty = record { negative = false; coefficient = 2000; exponent = negsuc 1 }

pub bank-IsSound : IsSound bank
unfolding accounts_table same str_eq
bank-IsSound = record { keys = ((refl, (refl, tt))); lawful = (refl, (refl, tt)) }

-- A hash function that keeps the password.
abbrev pub plain_hasher : Hasher
plain_hasher = record {
  generate_password_hash = λ salt p. p;
  check_password_hash = λ hash p. str_eq hash p;
}
