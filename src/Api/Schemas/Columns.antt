-- ===== src/Api/Schemas/Columns.antt =====
-- The bodies that change a row: whatever a schema lets pass, the UPDATE sets columns of its table.
pub mod Branches
pub mod CreditScores
pub mod Customers
pub mod Employees
pub mod Users
use corebank_api.Api.Schemas.Columns.Branches as BranchesColumns
use corebank_api.Api.Schemas.Branches.{branch_update_schema}
use corebank_api.Repositories.Branches as BranchesTable
use corebank_api.Api.Schemas.Columns.CreditScores as CreditScoresColumns
use corebank_api.Api.Schemas.CreditScores.{credit_score_update_schema}
use corebank_api.Repositories.CreditScores as CreditScoresTable
use corebank_api.Api.Schemas.Columns.Customers as CustomersColumns
use corebank_api.Api.Schemas.Customers.{customer_update_schema}
use corebank_api.Repositories.Customers as CustomersTable
use corebank_api.Api.Schemas.Columns.Employees as EmployeesColumns
use corebank_api.Api.Schemas.Employees.{employee_update_schema}
use corebank_api.Repositories.Employees as EmployeesTable
use corebank_api.Api.Schemas.Columns.Users as UsersColumns
use corebank_api.Api.Schemas.Users.{user_update_schema}
use corebank_api.Repositories.Users as UsersTable
use corebank_api.Api.Schemas.{Value, Schema, Dict, Loader, IsMarshmallow}
use corebank_api.Api.Schemas.Updates.{read_entry, read_all, dict-IsRead, IsRead}
use corebank_api.Prelude.{String, List, Option, some, ◌≡◌, All, All-every, map, str_eq, false}

-- The tables whose rows a body may change column by column.
pub data Resource : Type 0 where
  branches credit_scores customers employees users : Resource

-- The schema that `blp.arguments` names above `put`.
abbrev pub update_schema : Resource → Schema
update_schema branches = branch_update_schema
update_schema credit_scores = credit_score_update_schema
update_schema customers = customer_update_schema
update_schema employees = employee_update_schema
update_schema users = user_update_schema

abbrev pub Change : Resource → Type 0
Change branches = BranchesTable.Assignment
Change credit_scores = CreditScoresTable.Assignment
Change customers = CustomersTable.Assignment
Change employees = EmployeesTable.Assignment
Change users = UsersTable.Assignment

abbrev pub columns : (r : Resource) → List (String × (Value → Option (Change r)))
columns branches = BranchesColumns.columns
columns credit_scores = CreditScoresColumns.columns
columns customers = CustomersColumns.columns
columns employees = EmployeesColumns.columns
columns users = UsersColumns.columns

abbrev pub column : (r : Resource) → Change r → String
column branches = BranchesColumns.column
column credit_scores = CreditScoresColumns.column
column customers = CustomersColumns.column
column employees = EmployeesColumns.column
column users = UsersColumns.column

abbrev pub key_column : Resource → String
key_column branches = "branch_id"
key_column credit_scores = "credit_score_id"
key_column customers = "customer_id"
key_column employees = "employee_id"
key_column users = "user_id"

columns-IsRead : (r : Resource) → All (IsRead (read_entry (columns r)) (column r)) (update_schema r)
columns-IsRead branches = BranchesColumns.columns-IsRead
columns-IsRead credit_scores = CreditScoresColumns.columns-IsRead
columns-IsRead customers = CustomersColumns.columns-IsRead
columns-IsRead employees = EmployeesColumns.columns-IsRead
columns-IsRead users = UsersColumns.columns-IsRead

column-apart : (r : Resource) (a : Change r) → str_eq (column r a) (key_column r) ≡ false
column-apart branches = BranchesColumns.column-apart
column-apart credit_scores = CreditScoresColumns.column-apart
column-apart customers = CustomersColumns.column-apart
column-apart employees = EmployeesColumns.column-apart
column-apart users = UsersColumns.column-apart

-- Whatever body the loader lets pass for an update, the loaded dict is read as changes of columns of
-- the table, one for each of its keys and under its key, and none of them is the table's key.
pub load-columns :
    (r : Resource) (l : Loader) (body : l.Json) (d : Dict)
    → IsMarshmallow l
    → l.load (update_schema r) body ≡ some d
    → (fields : List (Change r)) × (read_all (read_entry (columns r)) d ≡ some fields)
      × (map (column r) fields ≡ map (λ e. e.0) d)
      × All (λ a. str_eq (column r a) (key_column r) ≡ false) fields
load-columns r l body d h loaded =
    let (fields, all_read, all_named) =
      dict-IsRead (read_entry (columns r)) (column r) (update_schema r) d (columns-IsRead r)
        (h.known (update_schema r) body d loaded) in
    (
      fields,
      all_read,
      all_named,
      All-every (λ a. str_eq (column r a) (key_column r) ≡ false) fields (column-apart r),
    )
